-- ===== src/Bridge/Blocks.antt =====
-- Reads from and writes to blocks of memory whose parts are known.
use github_upload.Base.{
  le32, ℕ, ◌+◌, ◌-◌, ◌^◌, ◌≤◌, ◌<◌, List, ◌++◌, true, some, ok, ltb, leb, length, take, drop,
  replicate, ◌≡◌, refl, arith, sym, ap, ◌∙◌, length-append, length-replicate, take-append,
  drop-append, drop_add, replicate_add, append_assoc,
}
use github_upload.Bridge.{get_int_from_buffer, int_at, store, copy}

-- Bytes followed by zeros up to the size of their field.
abbrev pub padded : ℕ → List ℕ → List ℕ
padded n bytes = bytes ++ replicate (n - length bytes) 0

get_int-le32 :
    (n : ℕ) (rest : List ℕ) → n < 2 ^ 32 → get_int_from_buffer (some (le32 n ++ rest)) ≡ ok n
unfolding get_int_from_buffer
get_int-le32 n rest h = ap ok (omega arith)

pub int_at-le32 :
    (array rest : List ℕ) (offset n : ℕ)
    → n < 2 ^ 32
    → drop offset array ≡ le32 n ++ rest
    → int_at array offset ≡ ok n
int_at-le32 array rest offset n h e =
    ap (λ bytes. get_int_from_buffer (some bytes)) e ∙ get_int-le32 n rest h

-- What is behind a part that has been read.
pub drop_past :
    (array part rest : List ℕ) (offset : ℕ)
    → drop offset array ≡ part ++ rest
    → drop (offset + length part) array ≡ rest
drop_past array part rest offset e =
    drop_add offset (length part) array ∙ ap (drop (length part)) e ∙ drop-append part rest

-- A part of a block is written over.
pub store-at :
    (q old bytes t : List ℕ) (to : ℕ)
    → to ≡ length q
    → length bytes ≡ length old
    → store to bytes (q ++ (old ++ t)) ≡ ok (q ++ (bytes ++ t))
unfolding store
store-at q old bytes t to e l =
    let fits : leb (to + length bytes) (length (q ++ (old ++ t))) ≡ true =
      ground (arith, length-append q (old ++ t), length-append old t) in
    let end : to + length bytes ≡ length q + length old = omega arith in
    let behind : drop (to + length bytes) (q ++ (old ++ t)) ≡ t =
      ap (λ n. drop n (q ++ (old ++ t))) end
      ∙ drop_add (length q) (length old) (q ++ (old ++ t))
      ∙ ap (drop (length old)) (drop-append q (old ++ t))
      ∙ drop-append old t in
    let before : take to (q ++ (old ++ t)) ≡ q =
      ap (λ n. take n (q ++ (old ++ t))) e ∙ take-append q (old ++ t) in
    rw (fits, behind, before) refl

-- Bytes are written to the zeros at the end of a block.
pub store_fresh :
    (q bytes : List ℕ) (to k : ℕ)
    → to ≡ length q
    → length bytes ≤ k
    → store to bytes (q ++ replicate k 0) ≡ ok (q ++ (bytes ++ replicate (k - length bytes) 0))
store_fresh q bytes to k e l =
    let split : k ≡ length bytes + (k - length bytes) = omega arith in
    ap (λ r. store to bytes (q ++ r))
      (ap (λ n. replicate n 0) split ∙ replicate_add (length bytes) (k - length bytes) 0)
    ∙ store-at q (replicate (length bytes) 0) bytes (replicate (k - length bytes) 0) to e
        (sym (length-replicate (length bytes) 0))

-- A field behind `part` is filled, and zeros make it up to its size.
pub store-padded :
    (q part bytes : List ℕ) (to k size : ℕ)
    → to ≡ length (q ++ part)
    → length bytes ≤ size
    → store to bytes (q ++ (part ++ replicate (size + k) 0))
      ≡ ok (q ++ (part ++ (padded size bytes ++ replicate k 0)))
store-padded q part bytes to k size e l =
    let rest : size + k - length bytes ≡ (size - length bytes) + k = omega arith in
    ap (store to bytes) (sym (append_assoc q part _))
    ∙ store_fresh (q ++ part) bytes to (size + k) e (omega arith)
    ∙ ap (λ m. ok ((q ++ part) ++ (bytes ++ replicate m 0))) rest
    ∙ ap (λ z. ok ((q ++ part) ++ (bytes ++ z))) (replicate_add (size - length bytes) k 0)
    ∙ ap (λ z. ok ((q ++ part) ++ z)) (sym (append_assoc bytes _ _))
    ∙ ap ok (append_assoc q part _)

pub copy-store :
    (array part rest block : List ℕ) (to offset : ℕ)
    → length part < 2 ^ 31
    → drop offset array ≡ part ++ rest
    → copy to array offset (length part) block ≡ store to part block
unfolding copy
copy-store array part rest block to offset small e =
    let there : leb (length part) (length (drop offset array)) ≡ true =
      rw e (ground (arith, length-append part rest)) in
    let taken : take (length part) (drop offset array) ≡ part =
      ap (take (length part)) e ∙ take-append part rest in
    let short : ltb (length part) (2 ^ 31) ≡ true = ground arith in rw (short, there, taken) refl

pub length-padded : (n : ℕ) (bytes : List ℕ) → length bytes ≤ n → length (padded n bytes) ≡ n
length-padded n bytes h = omega (
  arith,
  length-append bytes (replicate (n - length bytes) 0),
  length-replicate {A = ℕ} (n - length bytes) 0,
)
