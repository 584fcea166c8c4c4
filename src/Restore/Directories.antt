-- ===== src/Restore/Directories.antt =====
-- test/RestoreIolog.c: `mkdir_p` makes every directory on the way, and `dir_parent` cuts behind the last
-- '/'.
use github_upload.Base.{
  ok-injective, ℕ, List, [], ◌∷◌, ◌++◌, true, false, none, some, ok, ◌==◌, if◌then◌else◌, ◌≡◌, ◌≢◌,
  ◌⊎◌, refl, arith, ap, sym, subst, ◌∙◌, All, drop, take, append_assoc, append-nil, inl, inr,
  Bool-cases,
}
use github_upload.Restore.{
  FileSystem, Made, made, exists, failed, dir_parent, with_slash, make_dirs, mkdir_p,
}

-- What mkdir(2) promises: a call that succeeds or fails with EEXIST leaves the name there, and no
-- call takes a name away.
pub record MakesDirs (fs : FileSystem) : Type 1 where
  pub There : List ℕ → fs.Files → Type 0
  pub mkdir_there :
      (p : List ℕ) (s : fs.Files) → (fs.mkdir p s).0 ≢ failed → There p (fs.mkdir p s).1
  pub mkdir_keeps : (p q : List ℕ) (s : fs.Files) → There q s → There q (fs.mkdir p s).1

abbrev pub NotSlash : ℕ → Type 0
NotSlash c = (c == b'/') ≡ false

Made-cases : (m : Made) → (m ≡ failed) ⊎ (m ≢ failed)
Made-cases made = inr (λ e. cc)
Made-cases exists = inr (λ e. cc)
Made-cases failed = inl refl

Made-elim : {A : Type 0} (m : Made) (x y : A) → m ≢ failed → elim m [ failed ↦ x | _ ↦ y ] ≡ y
Made-elim made x y h = refl
Made-elim exists x y h = refl
Made-elim failed x y h = absurd (h refl)

module _ (fs : FileSystem) where
  make_dirs-failed :
      (done rest : List ℕ) (c : ℕ) (s : fs.Files)
      → (c == b'/') ≡ true
      → (fs.mkdir done s).0 ≡ failed
      → make_dirs fs done (c ∷ rest) s ≡ (false, (fs.mkdir done s).1)
  unfolding make_dirs
  make_dirs-failed done rest c s e f = rw (make_dirs, e, f) refl

  make_dirs-made :
      (done rest : List ℕ) (c : ℕ) (s : fs.Files)
      → (c == b'/') ≡ true
      → (fs.mkdir done s).0 ≢ failed
      → make_dirs fs done (c ∷ rest) s ≡ make_dirs fs (done ++ (c ∷ [])) rest (fs.mkdir done s).1
  unfolding make_dirs
  make_dirs-made done rest c s e f = rw (make_dirs, e) (Made-elim (fs.mkdir done s).0 _ _ f)

  make_dirs-name :
      (done rest : List ℕ) (c : ℕ) (s : fs.Files)
      → NotSlash c
      → make_dirs fs done (c ∷ rest) s ≡ make_dirs fs (done ++ (c ∷ [])) rest s
  unfolding make_dirs
  make_dirs-name done rest c s e = rw (make_dirs, e) refl

module _ (fs : FileSystem) where
  failed_false :
      (done rest : List ℕ) (c : ℕ) (s : fs.Files)
      → (c == b'/') ≡ true
      → (fs.mkdir done s).0 ≡ failed
      → (make_dirs fs done (c ∷ rest) s).0 ≢ true
  failed_false done rest c s e f h =
      let no : false ≡ true = ap (λ p. p.0) (sym (make_dirs-failed fs done rest c s e f)) ∙ h in
      absurd cc

module _ (fs : FileSystem) (laws : MakesDirs fs) where
  open laws use {There, mkdir_there, mkdir_keeps}

  -- What was there is there still.
  make_dirs-keeps :
      (q done rest : List ℕ) (s : fs.Files) → There q s → There q (make_dirs fs done rest s).1
  unfolding make_dirs
  make_dirs-keeps q done [] s t = t
  make_dirs-keeps q done (c ∷ rest) s t = elim (Bool-cases (c == b'/')) [
    | inl e ↦ elim (Made-cases (fs.mkdir done s).0) [
      | inl f ↦
          subst (λ p. There q p.1) (sym (make_dirs-failed fs done rest c s e f))
            (mkdir_keeps done q s t)
      | inr f ↦
          subst (λ p. There q p.1) (sym (make_dirs-made fs done rest c s e f))
            (make_dirs-keeps q (done ++ (c ∷ [])) rest (fs.mkdir done s).1 (mkdir_keeps done q s t))
    ]
    | inr e ↦
        subst (λ p. There q p.1) (sym (make_dirs-name fs done rest c s e))
          (make_dirs-keeps q (done ++ (c ∷ [])) rest s t)
  ]

  make_dirs-there :
      (a b done : List ℕ) (s : fs.Files)
      → (make_dirs fs done (a ++ (b'/' ∷ b)) s).0 ≡ true
      → There (done ++ a) (make_dirs fs done (a ++ (b'/' ∷ b)) s).1
  make_dirs-there [] b done s h = elim (Made-cases (fs.mkdir done s).0) [
    | inl f ↦ absurd (failed_false fs done b b'/' s refl f h)
    | inr f ↦
        subst (λ p. There (done ++ []) p.1) (sym (make_dirs-made fs done b b'/' s refl f))
          (subst (λ p. There p (make_dirs fs (done ++ (b'/' ∷ [])) b (fs.mkdir done s).1).1)
            (sym (append-nil done))
            (make_dirs-keeps done (done ++ (b'/' ∷ [])) b (fs.mkdir done s).1
              (mkdir_there done s f)))
  ]
  make_dirs-there (c ∷ a) b done s h =
      let rest : List ℕ = a ++ (b'/' ∷ b) in
      let next : List ℕ = done ++ (c ∷ []) in
      let shifted : (next ++ a) ≡ done ++ (c ∷ a) = append_assoc done (c ∷ []) a in
      elim (Bool-cases (c == b'/')) [
        | inl e ↦ elim (Made-cases (fs.mkdir done s).0) [
          | inl f ↦ absurd (failed_false fs done rest c s e f h)
          | inr f ↦
              let step = make_dirs-made fs done rest c s e f in
              let there =
                make_dirs-there a b next (fs.mkdir done s).1 (ap (λ p. p.0) (sym step) ∙ h) in
              subst (λ p. There (done ++ (c ∷ a)) p.1) (sym step)
                (subst (λ q. There q (make_dirs fs next rest (fs.mkdir done s).1).1) shifted there)
        ]
        | inr e ↦
            let step = make_dirs-name fs done rest c s e in
            let there = make_dirs-there a b next s (ap (λ p. p.0) (sym step) ∙ h) in
            subst (λ p. There (done ++ (c ∷ a)) p.1) (sym step)
              (subst (λ q. There q (make_dirs fs next rest s).1) shifted there)
      ]

  from_first :
      (x c : ℕ) (a b rest : List ℕ) (s u : fs.Files)
      → make_dirs fs (x ∷ []) rest s ≡ (true, u)
      → x ∷ rest ≡ c ∷ (a ++ (b'/' ∷ b))
      → There (c ∷ a) u
  from_first x c a b rest s u h e =
      let tail : rest ≡ a ++ (b'/' ∷ b) = ap (drop 1) e in
      let start : x ∷ [] ≡ c ∷ [] = ap (take 1) e in
      let done : make_dirs fs (c ∷ []) (a ++ (b'/' ∷ b)) s ≡ (true, u) =
        ap (λ p. make_dirs fs p (a ++ (b'/' ∷ b)) s) (sym start)
        ∙ ap (λ r. make_dirs fs (x ∷ []) r s) (sym tail)
        ∙ h in
      subst (λ p. There (c ∷ a) p.1) done (make_dirs-there a b (c ∷ []) s (ap (λ p. p.0) done))

  -- If `mkdir_p` returns 0, every directory above the path is there, and so is the path itself: each
  -- name that a '/' follows in the path, with a '/' put at its end, is there.
  pub mkdir_p-makes :
      (c : ℕ) (a b path : List ℕ) (s u : fs.Files)
      → mkdir_p fs path s ≡ ok (true, u)
      → with_slash path ≡ c ∷ (a ++ (b'/' ∷ b))
      → There (c ∷ a) u
  unfolding mkdir_p
  mkdir_p-makes c a b [] s u h e = absurd cc
  mkdir_p-makes c a b (x ∷ []) s u h e = elim (Bool-cases (x == b'/')) [
    | inl f ↦
        let none_added : [] ≡ (if x == b'/' then [] else b'/' ∷ []) = rw f refl in
        let whole : x ∷ [] ≡ with_slash (x ∷ []) = rw f refl in
        from_first x c a b [] s u
          (ap (λ r. make_dirs fs (x ∷ []) r s) none_added ∙ ok-injective _ _ h) (whole ∙ e)
    | inr f ↦
        let added : b'/' ∷ [] ≡ (if x == b'/' then [] else b'/' ∷ []) = rw f refl in
        let whole : x ∷ (b'/' ∷ []) ≡ with_slash (x ∷ []) = rw f refl in
        from_first x c a b (b'/' ∷ []) s u
          (ap (λ r. make_dirs fs (x ∷ []) r s) added ∙ ok-injective _ _ h) (whole ∙ e)
  ]
  mkdir_p-makes c a b (x ∷ y ∷ path) s u h e =
      from_first x c a b (with_slash (y ∷ path)) s u (ok-injective _ _ h) e

is_slash : (c : ℕ) → (c == b'/') ≡ true → c ≡ b'/'
is_slash c h = ground arith

-- `dir_parent` cuts a path behind its last '/', and finds none only in a path without one.
dir_parent-cuts :
    (p : List ℕ)
    → (dir_parent p ≡ none) × All NotSlash p
      ⊎ ((a : List ℕ) × (b : List ℕ) × (p ≡ a ++ (b'/' ∷ b))
          × (dir_parent p ≡ some (a ++ (b'/' ∷ [])))
          × All NotSlash b)
unfolding dir_parent
dir_parent-cuts [] = inl (refl, tt)
dir_parent-cuts (c ∷ rest) = elim (dir_parent-cuts rest) [
  | inr (a, b, e, f, h) ↦ inr (c ∷ a, b, ap (λ z. c ∷ z) e, rw (dir_parent, f) refl, h)
  | inl (f, h) ↦ elim (Bool-cases (c == b'/')) [
    | inl s ↦ inr (
      [],
      rest,
      ap (λ z. z ∷ rest) (is_slash c s),
      rw (dir_parent, f, s) (ap (λ z. some (z ∷ [])) (is_slash c s)),
      h,
    )
    | inr s ↦ inl (rw (dir_parent, f, s) refl, (s, h))
  ]
]
