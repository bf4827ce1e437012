-- ===== src/BufMgr/Dispose.antt =====
-- disposePage of src/buffer.cpp.
use cs564_project.Prelude.{
  ℕ, ◌≡◌, refl, ◌⊎◌, inl, inr, none, some, ◌&&◌, ◌==◌, if◌then◌else◌, arith, Option-cases,
}
use cs564_project.Exceptions.{Exception, Result, ok, err, Result-cases}
use cs564_project.Files.{Files}
use cs564_project.HashTbl.Laws.{view, update, remove-Writes}
use cs564_project.BufMgr.State.{BufMgr, desc, clear, set_desc, clear_desc, remove_entry}
use cs564_project.BufMgr.Calls.{dispose_page, discard, delete_page, caught_result}
use cs564_project.BufMgr.Inv.{Inv, desc-set_desc, release-Inv, with_store-Inv, with_table}
use cs564_project.BufMgr.Unpin.{lookup_frame-hit, lookup_frame-miss}

module _ {files : Files} where
  -- The pool no longer holds the page: its entry is gone, and its frame is idle. The store is not
  -- touched, nor is any other frame or entry.
  pub record Discarded (s : BufMgr files) (f p : ℕ) (t : BufMgr files) : Type 0 where
    pub inv : Inv t
    pub store : t.store ≡ s.store
    pub pool : t.buf_pool ≡ s.buf_pool
    pub entries : (g q : ℕ) → view t.hash_table g q ≡ update (view s.hash_table) f p none g q
    pub frames :
        (j : ℕ)
        → desc t j ≡ (
            if (desc s j).valid && ((desc s j).file == f && (desc s j).page_no == p)
            then clear (desc s j)
            else desc s j)

  discard_present :
      (s : BufMgr files) (f p k : ℕ)
      → Inv s
      → view s.hash_table f p ≡ some k
      → (t : BufMgr files) × (caught_result (discard f p s) ≡ (ok (some tt), t)) × Discarded s f p t
  unfolding discard remove_entry clear_desc clear
  discard_present s f p k v there =
      let (h, used, file, page) = v.owned f p k there in
      let (t, removes, w) = remove-Writes s.hash_table v.table f p k there in
      (
        set_desc k (clear (desc s k)) (with_table t s.store s),
        rw (lookup_frame-hit s f p k there, remove_entry, removes),
        record {
          inv = release-Inv k t s.store v h used (rw (file, page) w);
          store = refl;
          pool = refl;
          entries = w.reads;
          frames = λ j.
              rw (desc-set_desc k j (clear (desc s k)) v h)
                (ground (arith, v.mapped j, v.owned f p j, v.owned f p k));
        },
      )

  discard_absent :
      (s : BufMgr files) (f p : ℕ)
      → view s.hash_table f p ≡ none
      → caught_result (discard f p s) ≡ (ok none, s)
  unfolding discard
  discard_absent s f p absent = rw (lookup_frame-miss s f p absent)

  absent-Discarded :
      (s : BufMgr files) (f p : ℕ) → Inv s → view s.hash_table f p ≡ none → Discarded s f p s
  absent-Discarded s f p v absent = record {
    inv = v;
    store = refl;
    pool = refl;
    entries = λ g q. ground arith;
    frames = λ j. ground (arith, v.mapped j);
  }

  abbrev pub Deletes : BufMgr files → ℕ → ℕ → Result (Unit {0}) × BufMgr files → Type 0
  Deletes t f p r =
      ((st : files.Store) × (files.delete_page t.store f p ≡ ok st)
        × (r ≡ (ok tt, record t { store = st })))
      ⊎ ((e : Exception) × (files.delete_page t.store f p ≡ err e)
          × (r ≡ (err e, record t { store = files.undeleted t.store f p })))

  delete_page-Deletes : (t : BufMgr files) (f p : ℕ) → Deletes t f p (delete_page f p t)
  unfolding delete_page
  delete_page-Deletes t f p = elim (Result-cases (files.delete_page t.store f p)) [
    | inl (st, e) ↦ inl (st, e, rw (delete_page, e))
    | inr (x, e) ↦ inr (x, e, rw (delete_page, e))
  ]

  -- In a state of the invariant, `disposePage` first takes the page out of the pool, pinned or not,
  -- which clears its frame and its entry only and keeps the invariant, and then has the file delete
  -- it; an exception of the file is passed on with the page already out of the pool and the store as
  -- the file left it.
  pub dispose_page_cases :
      (s : BufMgr files) (f p : ℕ)
      → Inv s
      → (t : BufMgr files) × Discarded s f p t × Deletes t f p (dispose_page f p s)
  unfolding dispose_page
  dispose_page_cases s f p v = elim (Option-cases (view s.hash_table f p)) [
    | inl absent ↦ (
      s,
      absent-Discarded s f p v absent,
      rw (discard_absent s f p absent) (delete_page-Deletes s f p),
    )
    | inr (k, there) ↦
        let (t, run, out) = discard_present s f p k v there in
        (t, out, rw run (delete_page-Deletes t f p))
  ]

  pub dispose_page-Inv : (s : BufMgr files) (f p : ℕ) → Inv s → Inv (dispose_page f p s).1
  dispose_page-Inv s f p v =
      let (t, out, cases) = dispose_page_cases s f p v in
      elim cases [
        | inl (st, _, e) ↦ rw e (with_store-Inv st out.inv)
        | inr (x, _, e) ↦ rw e (with_store-Inv (files.undeleted t.store f p) out.inv)
      ]
