-- ===== src/Probe/Overlay.antt =====
-- What `write_bytes` of timefence-epbf/timefence_epbf/src/main.rs writes.
use k_sentry.Prelude.{
  ℕ, ◌+◌, ◌≡◌, refl, ap, ◌∙◌, arith, true, false, List, [], ◌∷◌, ◌++◌, length, length-append, set,
  take, drop, ltb, lt→ltb,
}
use k_sentry.Probe.{write_bytes_from, write_bytes}

set_middle :
    (pre : List ℕ) (x v : ℕ) (post : List ℕ)
    → set (pre ++ x ∷ post) (length pre) v ≡ (pre ++ v ∷ []) ++ post
set_middle [] x v post = refl
set_middle (y ∷ pre) x v post = ap (λ l. y ∷ l) (set_middle pre x v post)

append_middle : (pre : List ℕ) (x : ℕ) (post : List ℕ) → (pre ++ x ∷ []) ++ post ≡ pre ++ x ∷ post
append_middle [] x post = refl
append_middle (y ∷ pre) x post = ap (λ l. y ∷ l) (append_middle pre x post)

append_nil : (pre : List ℕ) → pre ++ [] ≡ pre
append_nil [] = refl
append_nil (x ∷ pre) = ap (λ l. x ∷ l) (append_nil pre)

write_bytes_from-overlay :
    (pre rest src : List ℕ)
    → write_bytes_from (length pre) (pre ++ rest) src
      ≡ pre ++ (take (length rest) src ++ drop (length src) rest)
unfolding write_bytes_from
write_bytes_from-overlay pre [] [] = refl
write_bytes_from-overlay pre (x ∷ rest) [] = refl
write_bytes_from-overlay pre [] (b ∷ src) =
    let stop : ltb (length pre) (length (pre ++ [])) ≡ false =
      ground (arith, length-append pre []) in
    rw stop refl
write_bytes_from-overlay pre (x ∷ rest) (b ∷ src) =
    let go : ltb (length pre) (length (pre ++ x ∷ rest)) ≡ true =
      lt→ltb _ _ (omega (arith, length-append pre (x ∷ rest))) in
    let next : length pre + 1 ≡ length (pre ++ b ∷ []) =
      omega (arith, length-append pre (b ∷ [])) in
    rw (go, set_middle pre x b rest, next)
      (write_bytes_from-overlay (pre ++ b ∷ []) rest src
        ∙ append_middle pre b (take (length rest) src ++ drop (length src) rest))

-- `write_bytes` overlays the array with as many bytes of the source as it has places, and keeps the
-- rest of the array.
pub write_bytes-overlay :
    (dst src : List ℕ) → write_bytes dst src ≡ take (length dst) src ++ drop (length src) dst
unfolding write_bytes
write_bytes-overlay dst src = write_bytes_from-overlay [] dst src
