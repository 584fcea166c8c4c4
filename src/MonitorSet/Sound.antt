-- ===== src/MonitorSet/Sound.antt =====
-- The invariant of the two trees, and computations that keep it: the GUIDs of the sets rise along the
-- tree, and the entries of a tree stand at addresses that differ and have been handed out.
use github_upload.Base.{
  sym, ◌∙◌, ◌≢◌, ℕ, ◌≤◌, ◌<◌, ◌≡◌, List, refl, arith, All, All-imp, subst, Outcome, ok, wild,
  unfinished,
}
use github_upload.Entries.{set_addr, file_addr}
use github_upload.Rb.{to_list}
use github_upload.Rb.Sets.{SetsSorted}
use github_upload.Rb.Erase.{Distinct}
use github_upload.Driver.{Driver, M, pure, ◌>>=◌}

pub record IsSound (d : Driver) : Type 0 where
  pub sets_sorted : SetsSorted d.sets
  pub sets_distinct : Distinct set_addr (to_list d.sets)
  pub files_distinct : Distinct file_addr (to_list d.files)
  pub sets_known : All (λ e. e.addr < d.next_addr) (to_list d.sets)
  pub files_known : All (λ e. e.addr < d.next_addr) (to_list d.files)

-- From a sound state `m` ends, and where it comes to a value, it leaves a sound state.
pub record Keeps {A : Type 0} (m : M A) : Type 0 where
  pub run : (d : Driver) (a : A) (d' : Driver) → IsSound d → m d ≡ ok (a, d') → IsSound d'
  pub ends : (d : Driver) → IsSound d → m d ≢ unfinished

pub Keeps-bind :
    {A B : Type 0} (m : M A) (f : A → M B) → Keeps m → ((a : A) → Keeps (f a)) → Keeps (m >>= f)
Keeps-bind {A} {B} m f km kf = record {
  run = λ d b d' s e. go d b d' s (m d) refl e;
  ends = λ d s e. stop d s (m d) refl e;
}
  where
    go :
        (d : Driver) (b : B) (d' : Driver)
        → IsSound d
        → (o : Outcome (A × Driver)) → m d ≡ o
        → (m >>= f) d ≡ ok (b, d')
        → IsSound d'
    go d b d' s (ok (a, u)) h e = (kf a).run u b d' (km.run d a u s h) (ground arith)
    go d b d' s wild h e = absurd (ground arith)
    go d b d' s unfinished h e = absurd (ground arith)

    stop :
        (d : Driver) → IsSound d → (o : Outcome (A × Driver)) → m d ≡ o → (m >>= f) d ≢ unfinished
    stop d s (ok (a, u)) h e = (kf a).ends u (km.run d a u s h) (ground arith)
    stop d s wild h e = ground arith
    stop d s unfinished h e = km.ends d s h

pub Keeps-pure : {A : Type 0} (a : A) → Keeps (pure a)
Keeps-pure a = record {
  run = λ d b d' s e. subst IsSound (ground arith) s;
  ends = λ d s e. ground arith;
}

known_later :
    {A : Type 0} (addr : A → ℕ) (m n : ℕ) (xs : List A)
    → m ≤ n
    → All (λ e. addr e < m) xs
    → All (λ e. addr e < n) xs
known_later addr m n xs h = All-imp _ _ xs (λ e k. omega arith)

-- A state with the same trees, and at most more addresses handed out.
pub same_trees :
    (d u : Driver)
    → u.files ≡ d.files
    → u.sets ≡ d.sets
    → d.next_addr ≤ u.next_addr
    → IsSound d
    → IsSound u
same_trees d u f g h s = record {
  sets_sorted = rw g s.sets_sorted;
  sets_distinct = rw g s.sets_distinct;
  files_distinct = rw f s.files_distinct;
  sets_known = rw g (known_later set_addr d.next_addr u.next_addr (to_list d.sets) h s.sets_known);
  files_known =
      rw f (known_later file_addr d.next_addr u.next_addr (to_list d.files) h s.files_known);
}

-- `m` from a state that has been changed before.
pub Keeps-after :
    {A : Type 0} (f : Driver → Driver) (m : M A)
    → ((d : Driver) → IsSound d → IsSound (f d))
    → Keeps m
    → Keeps (λ d. m (f d))
Keeps-after f m h k = record {
  run = λ d a u s e. k.run (f d) a u (h d s) e;
  ends = λ d s e. k.ends (f d) (h d s) e;
}

-- What does in each state as some computation does that keeps the invariant keeps it too.
pub Keeps-same :
    {A : Type 0} (m : M A) → ((d : Driver) → (n : M A) × Keeps n × (m d ≡ n d)) → Keeps m
Keeps-same m h = record {
  run = λ d a u s e. let (n, k, q) = h d in k.run d a u s (sym q ∙ e);
  ends = λ d s e. let (n, k, q) = h d in k.ends d s (sym q ∙ e);
}
