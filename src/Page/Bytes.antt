-- ===== src/Page/Bytes.antt =====
-- The string `data_` of src/page.h: its size and its bytes. The bytes from its size on are the
-- memory behind it, which a pointer into the string can reach.
use cs564_project.Prelude.{
  ℕ, zero, suc, ◌+◌, ◌-◌, ◌≤◌, ◌<◌, ◌≡◌, refl, List, [], ◌∷◌, ltb, ◌==◌, if◌then◌else◌, get_or,
  length, arith, ap,
}
use cs564_project.Exceptions.{Result, ok, err, out_of_range}

pub record Bytes : Type 0 where
  pub size : ℕ
  pub byte : ℕ → ℕ

-- `std::string::assign_bytes` of a count and a character.
unfoldable pub assign_bytes : Bytes → ℕ → ℕ → Bytes
assign_bytes m n c = record { size = n; byte = λ i. if ltb i n then c else m.byte i }

-- A write through a pointer.
unfoldable pub poke : Bytes → ℕ → ℕ → Bytes
poke m i b = record { size = m.size; byte = λ j. if i == j then b else m.byte j }

unfoldable pub read : (ℕ → ℕ) → ℕ → ℕ → List ℕ
read f pos zero = []
read f pos (suc n) = f pos ∷ read f (pos + 1) n

abbrev pub min : ℕ → ℕ → ℕ
min a b = if ltb a b then a else b

-- `std::string::substr`.
unfoldable pub substr : Bytes → ℕ → ℕ → Result (List ℕ)
substr m pos n =
    if ltb m.size pos then err out_of_range else ok (read m.byte pos (min n (m.size - pos)))

abbrev pub splice : Bytes → ℕ → ℕ → List ℕ → Bytes
splice m pos n s = record {
  size = m.size - n + length s;
  byte = λ i.
      if ltb i pos
      then m.byte i
      else if ltb i (pos + length s)
      then get_or s (i - pos) 0
      else m.byte (i - length s + n);
}

-- `std::string::replace` of `n` bytes from `pos` on.
unfoldable pub replace : Bytes → ℕ → ℕ → List ℕ → Result Bytes
replace m pos n s =
    if ltb m.size pos then err out_of_range else ok (splice m pos (min n (m.size - pos)) s)

pub length-read : (f : ℕ → ℕ) (pos n : ℕ) → length (read f pos n) ≡ n
unfolding read
length-read f pos zero = refl
length-read f pos (suc n) = ap suc (length-read f (pos + 1) n)

pub get_or-read : (f : ℕ → ℕ) (pos n i : ℕ) → i < n → get_or (read f pos n) i 0 ≡ f (pos + i)
unfolding read get_or
get_or-read f pos zero i h = absurd (omega arith)
get_or-read f pos (suc n) zero h = ground arith
get_or-read f pos (suc n) (suc i) h = ground (arith, get_or-read f (pos + 1) n i)

-- A range reads alike where the bytes agree, also at another place.
pub read-ext :
    (f g : ℕ → ℕ) (pos q n : ℕ)
    → ((i : ℕ) → i < n → f (pos + i) ≡ g (q + i))
    → read f pos n ≡ read g q n
unfolding read
read-ext f g pos q zero h = refl
read-ext f g pos q (suc n) h =
    let tail =
      read-ext f g (pos + 1) (q + 1) n
        λ i b. let e : f (pos + suc i) ≡ g (q + suc i) = h (suc i) (omega arith) in ground arith in
    let head : f (pos + 0) ≡ g (q + 0) = h 0 (omega arith) in ground arith

-- The list stands where it was written.
pub read-splice :
    (f : ℕ → ℕ) (pos : ℕ) (s : List ℕ)
    → ((i : ℕ) → i < length s → f (pos + i) ≡ get_or s i 0)
    → read f pos (length s) ≡ s
unfolding read get_or
read-splice f pos [] h = refl
read-splice f pos (x ∷ s) h =
    let tail =
      read-splice f (pos + 1) s
        λ i b. let e : f (pos + suc i) ≡ get_or s i 0 = h (suc i) (omega arith) in ground arith in
    let head : f (pos + 0) ≡ x = h 0 (omega arith) in ground arith

pub substr-inside :
    (m : Bytes) (pos n : ℕ) → pos + n ≤ m.size → substr m pos n ≡ ok (read m.byte pos n)
unfolding substr
substr-inside m pos n h = ground arith

-- Inside the string, a replacement by as many bytes.
pub replace-inside :
    (m : Bytes) (pos n : ℕ) (s : List ℕ)
    → pos + n ≤ m.size
    → length s ≡ n
    → replace m pos n s ≡ ok (splice m pos n s)
unfolding replace
replace-inside m pos n s h e = ground arith

pub byte-splice :
    (m : Bytes) (pos i : ℕ) (s : List ℕ)
    → (splice m pos (length s) s).byte i ≡ (
        if ltb i pos
        then m.byte i
        else if ltb i (pos + length s)
        then get_or s (i - pos) 0
        else m.byte i)
byte-splice m pos i s = ground arith
