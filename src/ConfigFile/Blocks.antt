-- ===== src/ConfigFile/Blocks.antt =====
-- monitorset.c: the blocks that `SaveConfig` writes stay readable where they were written.
use github_upload.Base.{
  ℕ, suc, ◌+◌, ◌*◌, ◌^◌, ◌≤◌, ◌<◌, List, [], ◌∷◌, true, false, ◌||◌, some, ok, ◌≡◌, ◌≢◌, refl,
  arith, length, leb, ◌==◌, ◌⊎◌, inl, inr, ap, ◌∙◌, Bool-cases,
}
use github_upload.Driver.{Driver, Block, bind-ok, next_io}
use github_upload.ConfigFile.{clear, read_at, size_of, file_write, write_all, u32}

-- A block that lies apart from what is written over can still be read.
read_at-clear :
    (p offset size : ℕ) (b : Block) (f : List (ℕ × Block))
    → read_at p f ≡ some b
    → (p + size_of b ≤ offset) ⊎ (offset + size ≤ p)
    → read_at p (clear offset size f) ≡ some b
unfolding read_at clear
read_at-clear p offset size b [] h a = cc
read_at-clear p offset size b ((o, c) ∷ f) h a = elim (Bool-cases (o == p)) [
  | inl e ↦
      let same : c ≡ b = ground arith in
      let stays : (leb (o + size_of c) offset || leb (offset + size) o) ≡ true =
        rw same (ground arith) in
      rw stays (rw e (ap some same))
  | inr e ↦
      let rest = read_at-clear p offset size b f (ground arith) a in
      elim (Bool-cases (leb (o + size_of c) offset || leb (offset + size) o)) [
        | inl stays ↦ rw stays (rw e rest)
        | inr gone ↦ rw gone rest
      ]
]

-- `file_write` of a block that comes out whole.
abbrev pub written : ℕ → Block → List (ℕ × Block) → List (ℕ × Block)
written offset b f = (offset, b) ∷ clear offset (size_of b) f

read_at-written :
    (p offset : ℕ) (b c : Block) (f : List (ℕ × Block))
    → read_at p f ≡ some b
    → p ≢ offset
    → (p + size_of b ≤ offset) ⊎ (offset + size_of c ≤ p)
    → read_at p (written offset c f) ≡ some b
unfolding read_at
read_at-written p offset b c f h n a =
    let other : (offset == p) ≡ false = ground arith in
    rw other (read_at-clear p offset (size_of c) b f h a)

pub read_at-written_self :
    (offset : ℕ) (b : Block) (f : List (ℕ × Block)) → read_at offset (written offset b f) ≡ some b
unfolding read_at
read_at-written_self offset b f = ground arith

pub file_write-done :
    (offset : ℕ) (b : Block) (d : Driver) (f : List (ℕ × Block))
    → d.io ≡ []
    → d.cnf ≡ some f
    → file_write offset b d ≡ ok (true, record d { cnf = some (written offset b f) })
unfolding file_write next_io
file_write-done offset b d f i c = ground arith

module _ {A : Type 0} (mk : A → Block) (size : ℕ) where
  -- The blocks of a list written one behind the other.
  unfoldable pub write_blocks : List A → ℕ → List (ℕ × Block) → List (ℕ × Block)
  write_blocks [] o f = f
  write_blocks (x ∷ xs) o f = write_blocks xs (o + size) (written o (mk x) f)

  -- The blocks of a list can be read one behind the other.
  abbrev pub Stored : List A → ℕ → List (ℕ × Block) → Type 0
  Stored [] o f = Unit
  Stored (x ∷ xs) o f = (read_at o f ≡ some (mk x)) × Stored xs (o + size) f

module _ {A : Type 0} (mk : A → Block) (size : ℕ) (sized : (a : A) → size_of (mk a) ≡ size)
    (room : 0 < size) where
  -- What lies before the place is left alone.
  read_at-write_blocks :
      (xs : List A) (p o : ℕ) (b : Block) (f : List (ℕ × Block))
      → read_at p f ≡ some b
      → 0 < size_of b
      → p + size_of b ≤ o
      → read_at p (write_blocks mk size xs o f) ≡ some b
  unfolding write_blocks
  read_at-write_blocks [] p o b f h z a = h
  read_at-write_blocks (x ∷ xs) p o b f h z a =
      read_at-write_blocks xs p (o + size) b (written o (mk x) f)
        (read_at-written p o b (mk x) f h (omega arith) (inl a)) z (omega arith)

  pub write_blocks-Stored :
      (xs : List A) (o : ℕ) (f : List (ℕ × Block))
      → Stored mk size xs o (write_blocks mk size xs o f)
  unfolding write_blocks
  write_blocks-Stored [] o f = tt
  write_blocks-Stored (x ∷ xs) o f = (
    read_at-write_blocks xs o (o + size) (mk x) (written o (mk x) f)
        (read_at-written_self o (mk x) f) (omega (arith, sized x)) (omega (arith, sized x)),
    write_blocks-Stored xs (o + size) (written o (mk x) f),
  )

module _ {A : Type 0} (mk : A → Block) (size : ℕ) (sized : (a : A) → size_of (mk a) ≡ size)
    (room : 0 < size) where
  -- A write before the place leaves the list stored.
  pub Stored-written :
      (xs : List A) (o offset : ℕ) (c : Block) (f : List (ℕ × Block))
      → offset + size_of c ≤ o
      → 0 < size_of c
      → Stored mk size xs o f
      → Stored mk size xs o (written offset c f)
  Stored-written [] o offset c f a z s = tt
  Stored-written (x ∷ xs) o offset c f a z s = (
    read_at-written o offset (mk x) c f s.0 (omega arith) (inr a),
    Stored-written xs (o + size) offset c f (omega arith) z s.1,
  )

  -- A list written behind it leaves the list stored.
  pub Stored-write_blocks :
      {B : Type 0} (mk' : B → Block) (size' : ℕ)
      → ((b : B) → size_of (mk' b) ≡ size')
      → 0 < size'
      → (xs : List A) (ys : List B) (o o' : ℕ) (f : List (ℕ × Block)) → o + size * length xs ≤ o'
      → Stored mk size xs o f
      → Stored mk size xs o (write_blocks mk' size' ys o' f)
  Stored-write_blocks mk' size' sized' room' [] ys o o' f a s = tt
  Stored-write_blocks mk' size' sized' room' (x ∷ xs) ys o o' f a s = (
    read_at-write_blocks mk' size' sized' room' ys o o' (mk x) f s.0 (omega (arith, sized x))
        (grind (arith, sized x)),
    Stored-write_blocks mk' size' sized' room' xs ys (o + size) o' f (grind arith) s.1,
  )

  -- `write_all` writes the blocks where every write succeeds and the offsets fit their 32 bits.
  write_all-blocks :
      (xs : List A) (o total : ℕ) (d : Driver) (f : List (ℕ × Block))
      → d.io ≡ []
      → d.cnf ≡ some f
      → o + size * length xs < 2 ^ 32
      → total + size * length xs < 2 ^ 32
      → write_all mk size xs o total d
        ≡ ok (
          some (o + size * length xs, total + size * length xs),
          record d { cnf = some (write_blocks mk size xs o f) },
        )
  unfolding write_all write_blocks
  write_all-blocks [] o total d f i c h g = ground arith
  write_all-blocks (x ∷ xs) o total d f i c h g =
      let small : u32 (o + size) ≡ o + size = ground arith in
      let small' : u32 (total + size) ≡ total + size = ground arith in
      let f' : List (ℕ × Block) = written o (mk x) f in
      bind-ok (file_write o (mk x)) _ d (record d { cnf = some f' }) true
        (file_write-done o (mk x) d f i c)
      ∙ rw (small, small')
          (write_all-blocks xs (o + size) (total + size) (record d { cnf = some f' }) f' i refl
              (grind arith) (grind arith)
            ∙ cc (grow o, grow total))
    where
      grow : (n : ℕ) → n + size + size * length xs ≡ n + size * suc (length xs)
      grow n = grind arith

  -- The same from a total of 0 on.
  pub write_all-blocks_0 :
      (xs : List A) (o : ℕ) (d : Driver) (f : List (ℕ × Block))
      → d.io ≡ []
      → d.cnf ≡ some f
      → o + size * length xs < 2 ^ 32
      → write_all mk size xs o 0 d
        ≡ ok (
          some (o + size * length xs, size * length xs),
          record d { cnf = some (write_blocks mk size xs o f) },
        )
  write_all-blocks_0 xs o d f i c h =
      let zero_total : 0 + size * length xs ≡ size * length xs = omega arith in
      cc (write_all-blocks xs o 0 d f i c h (omega arith), zero_total)
