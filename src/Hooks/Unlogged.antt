-- ===== src/Hooks/Unlogged.antt =====
-- hookvfs.c: the hooks that log nothing. They are in no table; what they print, and the path that
-- they work out for it, is left out.
use github_upload.Base.{Bool, true, false, ok, ℤ, ◌≡◌, refl}
use github_upload.Driver.{Driver, M, ◌>>=◌, bind-ok}
use github_upload.Hooks.{takes_part, buffer}

-- `rtb_sys_mkdir`.
unfoldable rtb_sys_mkdir : M ℤ → M ℤ
rtb_sys_mkdir run = run

-- `rtb_do_truncate`.
unfoldable rtb_do_truncate : M ℤ → M ℤ
unfolding buffer
rtb_do_truncate run = buffer >>= λ abspath. elim abspath [ false ↦ run | true ↦ run ]

-- `rtb_sys_write`.
unfoldable rtb_sys_write : M ℤ → M ℤ
unfolding buffer
rtb_sys_write run d = elim (takes_part d) [
  | false ↦ run d
  | true ↦ (buffer >>= λ abspath. elim abspath [ false ↦ run | true ↦ run ]) d
]

-- Each of them runs the call once and hands its result on; the driver has had an allocation at most.
unlogged_run :
    (run : M ℤ) (d u : Driver) (b : Bool)
    → buffer d ≡ ok (b, u)
    → (rtb_sys_mkdir run d ≡ run d)
      × (rtb_do_truncate run d ≡ run u)
      × (takes_part d ≡ true → rtb_sys_write run d ≡ run u)
      × (takes_part d ≡ false → rtb_sys_write run d ≡ run d)
unfolding rtb_sys_mkdir rtb_do_truncate rtb_sys_write
unlogged_run run d u false e = (
  refl,
  bind-ok buffer _ d u false e,
  (λ p. rw (rtb_sys_write, p) (bind-ok buffer _ d u false e)),
  (λ p. rw (rtb_sys_write, p) refl),
)
unlogged_run run d u true e = (
  refl,
  bind-ok buffer _ d u true e,
  (λ p. rw (rtb_sys_write, p) (bind-ok buffer _ d u true e)),
  (λ p. rw (rtb_sys_write, p) refl),
)
