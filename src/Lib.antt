-- ===== src/Lib.antt =====
-- The storage manager of this repository, and the search of its documentation: a model of the code
-- and what it is proved to do.
--
-- The program has two parts. A page (src/page.h) holds records of bytes, and a file (src/file.h)
-- holds pages, in a list of used and one of free pages. The buffer manager (src/buffer.h,
-- src/buffer.cpp) keeps the pages of files in a pool of frames. It finds the frame of a page by a
-- hash table (src/bufHashTbl.h, src/bufHashTbl.cpp), chooses the frame to reuse by the clock
-- algorithm, and reads and writes pages by calls of a File (src/file.h). The search of the
-- documentation (docs/search/search.js) is a panel with a field, a window of filters and a frame
-- of results, and, inside that frame, pages of results whose rows a search shows or hides and
-- whose keys move the focus.
--
-- Prelude, Prelude/Lists and Prelude/Tests hold the shared names, lists over the native numbers
-- and Boolean tests. Exceptions has the exceptions of src/exceptions as one data type, and
-- results. Effects has stateful calls that may throw: the state that a call leaves stands beside
-- the exception too, since the code does not undo what it did before a throw.
--
-- HashTbl: hash, insert, lookup, remove and the constructor of BufHashTbl; HashTbl/Chain and
-- HashTbl/Laws see a table as a map, and HashTbl/Cases states each call by lookup.
--
-- Files: the interface to File and Page, as a record of a type of pages, a store for all files and
-- the four calls that the manager makes. A page stands for its number and its contents, without
-- the link to the next page that File keeps in it. What a call that throws leaves of the store is
-- part of it: a read of page 0 fails the stream. The theorems on the buffer manager hold for every
-- instance; File/Stores makes one of the model of src/file.cpp, and Tests/Disk has a small one for
-- runs. Each file is behind one File*: two File objects of one file share a stream, and the
-- manager takes them for two files, so a client is to use one.
--
-- Page/State, Page/Delete and Page/Iterator: Page (src/page.h, src/page.cpp) and PageIterator
-- (src/page_iterator.h) on the bytes of the data, which Page/Bytes and Page/Slots read and write.
-- Page/Totals and Layout say how the records of a page lie in it, Page/Removal and Addition what a
-- record less or more makes of that, and Page/Inv has the invariant. Splicing, Moving, Deletion,
-- Release, Compaction and DeleteLaws are about deleteRecord, Slotting, Filling and InsertLaws
-- about insertRecord, UpdateLaws about updateRecord; Refusals, Stale, History and Walk are about
-- errors, slots in bytes left over, sequences of calls and the iteration.
--
-- File/State, File/Alloc and File/Free: an open File (src/file.h, src/file.cpp) and FileIterator
-- (src/file_iterator.h), as the header, the pages by number and the state of the stream.
-- File/Chains says what it is for the lists of used and of free pages to be in order. Store,
-- Places, Linking, AllocLaws, Heading, Reusing and Allocation are about allocatePage, Previous,
-- FreeLaws and Deleting about deletePage, Walk about the iteration, Access about readPage and
-- writePage, Stores and StoreLaws about the files as an instance of Files, Orders about the files
-- that calls make of a new one, and Crossed about an allocation in a file of which all pages are
-- free. File/Registry is the table of open files, a file by its name; Handles and Sharing hold it
-- against the File objects.
--
-- BufMgr/State: BufDesc, BufStats and BufMgr with the constructor. BufMgr/Clock: advanceClock and
-- allocBuf. BufMgr/Calls: readPage, unPinPage, allocPage and disposePage. BufMgr/Flush: flushFile,
-- the loop of the destructor, the count of printSelf and clearBufStats. The invariant is in
-- BufMgr/Inv. BufMgr/Sweep, Rounds, Alloc and Evict are about allocBuf; Load and Read about
-- readPage; AllocPage, Unpin and Dispose about the calls of those names; Flushing, FlushFile and
-- FlushLaws about flushFile; Coherence, Caching, Transparent and Durable see the pool as a cache
-- of the files, under laws of the files that Coherence names; Writing is about the writes of a
-- client to its pages; History is about sequences of calls.
--
-- Search/Text: the texts of the script as lists of code units, with convertToId. Search/Index: the
-- tables of the index. Search/Box and Search/Field: the handlers and actions of SearchBox.
-- Search/Page: createResults and Search of SearchResults. Search/Nav: NavNext, NavPrev, Toggle,
-- ProcessKeys, Nav and NavChild. Search/Dom: the walk of FindChildElement over the elements of a
-- row. Search/Escape and Search/Query: the query of the address, by escape and unescape.
-- Search/Address has the query that SearchResults.Search reads, and Search/Arrival follows a
-- search from the panel to its page. Search/Panel is about calls of the handlers one after the
-- other. Search/Ids, BoxLaws, FieldLaws, FilterLaws, PageLaws, NavLaws, KeyLaws and DomLaws hold
-- the other theorems. Tests and the modules below it run the models at concrete inputs.
--
-- Numbers are natural numbers. The clock hand and the sum of the hash wrap at 2 ^ 32 as in the
-- code; the invariant bounds the number of frames by 2 ^ 32. The pin count, an int in the code, is
-- not bounded here, so overflow by 2 ^ 31 pins of one page is not seen. The size of the hash table
-- is computed exactly as six fifths, rounded down, where the code multiplies by a double. A File*
-- is its address, and 0 is NULL; a Page*& that a call returns is the index of its frame. The loop
-- of allocBuf runs on twice the number of frames plus one as fuel, which is proved to be enough.
-- The digits of toString(16) run on the number plus one, and each digit divides it by sixteen. The
-- walk of FindChildElement runs on the number of elements plus one, which is proved to be enough.
--
-- A page's header fields, offsets and lengths wrap at 2 ^ 16 and the index of a slot at 2 ^ 64, as
-- in the code; a slot is six bytes, low byte first. The bytes behind the string of the data are
-- part of the model, since a slot beyond the string can be read. The loops over the slots make one
-- round for each slot. The visit of a page runs on more than its number of slots, which is proved
-- to be enough.
--
-- Of the document the model keeps what the script reads and writes. Positions and widths in
-- pixels, the stop of events and the timers of the browser are left out; a timer is whether its
-- field is not 0. toLowerCase is the identity above code unit 255. The children of a row are a
-- field of it, which is what FindChildElement finds in it; a handler finds the row by its id, so
-- the first of that id, as getElementById does. A TypeError is none.
--
-- A read of a page that the file does not have fails and leaves the stream failed; a header that
-- is then read is indeterminate, which the model gives as an exception of its own, and so it does
-- where a loop over the pages is cut off. The loops of File run on the number of pages plus one,
-- which is proved to be enough where the lists are in order.
--
-- Not modelled: other programs that change the files on disk, the texts of messages and of
-- printSelf, the tests in src/main.cpp, the generated pages and data of docs, and docs/jquery.js,
-- a library.
pub mod Prelude
pub mod Exceptions
pub mod Effects
pub mod Files
pub mod HashTbl
pub mod Page
pub mod File
pub mod BufMgr
pub mod Search
pub mod Tests
