-- ===== src/Registry/Clean.antt =====
-- `foxdbg_add_channel` and `foxdbg_add_rx_channel` where `pthread_mutex_init` does not fail.
use foxdbg.Base.{
  ℕ, ◌+◌, ◌≡◌, refl, List, Option, none, some, ℤ, String, ◌==◌, arith, Bool-cases, inl, inr,
}
use mathlib.Core.Path.{subst}
use foxdbg.Outcome.{Outcome, ok, blocked, fault}
use foxdbg.Os.{Os, malloc}
use foxdbg.Os.Granted.{Clean, Clean-then, Clean-most, malloc-Clean}
use foxdbg.Buffer.{FoxdbgBuffer, alloc}
use foxdbg.Buffer.Clean.{alloc-Clean}
use foxdbg.Channel.{ChannelType, sizeof_channel}
use foxdbg.Registry.{
  Foxdbg, payload_size, info_size, rx_payload_size, tx_time, request_info, add_node, add_info,
  add_data, add_sized, add_channel, rx_node, rx_data, rx_sized, add_rx_channel,
}

-- The call does not return, or it leaves the C library so.
abbrev CleanRun : ℕ → Os → Outcome (ℤ × Foxdbg) → Type 0
CleanRun n os (ok (r, s)) = Clean n os s.os
CleanRun n os _ = Unit

CleanRun-then :
    (m n : ℕ) (p q : Os) (run : Outcome (ℤ × Foxdbg))
    → Clean m p q
    → CleanRun n q run
    → CleanRun (m + n) p run
CleanRun-then m n p q (ok (r, s)) f g = Clean-then m n p q s.os f g
CleanRun-then m n p q blocked f g = tt
CleanRun-then m n p q fault f g = tt

module _ (topic : String) (ty : ChannelType) (s : Foxdbg) where
  add_node-Clean :
      (time : Option ℕ) (b : FoxdbgBuffer) (info : Option FoxdbgBuffer) (node : Option (List ℕ))
      (os : Os)
      → CleanRun 0 os (add_node topic ty time b info node os s)
  unfolding add_node
  add_node-Clean time b info none os = λ h. (refl, omega arith)
  add_node-Clean none b info (some _) os = tt
  add_node-Clean (some time) b info (some _) os = λ h. (refl, omega arith)

  add_info-Clean :
      (time : Option ℕ) (b : FoxdbgBuffer) (info : Option (Option FoxdbgBuffer)) (os : Os)
      → CleanRun 0 os (add_info topic ty time b info os s)
  unfolding add_info
  add_info-Clean time b none os = λ h. (refl, omega arith)
  add_info-Clean time b (some info) os =
      let m = malloc sizeof_channel os in
      CleanRun-then 0 0 os m.1 (add_node topic ty time b info m.0 m.1 s)
        (malloc-Clean sizeof_channel os) (add_node-Clean time b info m.0 m.1)

  request_info-Clean : (size : ℕ) (os : Os) → Clean 3 os (request_info size os).1
  unfolding request_info
  request_info-Clean size os = elim (Bool-cases (size == 0)) [
    | inl e ↦ rw e (λ h. (refl, omega arith))
    | inr e ↦ rw e (alloc-Clean size os)
  ]

  add_data-Clean :
      (time : Option ℕ) (b : Option FoxdbgBuffer) (os : Os)
      → CleanRun 3 os (add_data topic ty time b os s)
  unfolding add_data
  add_data-Clean time none os = λ h. (refl, omega arith)
  add_data-Clean time (some b) os =
      let r = request_info (info_size ty) os in
      CleanRun-then 3 0 os r.1 (add_info topic ty time b r.0 r.1 s)
        (request_info-Clean (info_size ty) os) (add_info-Clean time b r.0 r.1)

  add_sized-Clean : (time size : Option ℕ) → CleanRun 6 s.os (add_sized topic ty time size s)
  unfolding add_sized
  add_sized-Clean time none = λ h. (refl, omega arith)
  add_sized-Clean time (some size) =
      let r = alloc size s.os in
      CleanRun-then 3 3 s.os r.1 (add_data topic ty time r.0 r.1 s) (alloc-Clean size s.os)
        (add_data-Clean time r.0 r.1)

  -- A call that returns, where the next six calls of `pthread_mutex_init` succeed.
  pub add_channel-Clean :
      (hz : ℤ) {r : ℤ × Foxdbg} → add_channel topic ty hz s ≡ ok r → Clean 6 s.os r.1.os
  unfolding add_channel
  add_channel-Clean hz e =
      subst (CleanRun 6 s.os) e (add_sized-Clean (tx_time hz) (payload_size ty))

  rx_node-Clean :
      (b : FoxdbgBuffer) (node : Option (List ℕ)) (os : Os)
      → Clean 0 os (rx_node topic ty b node os s).1.os
  unfolding rx_node
  rx_node-Clean b none os = λ h. (refl, omega arith)
  rx_node-Clean b (some _) os = λ h. (refl, omega arith)

  rx_data-Clean : (b : Option FoxdbgBuffer) (os : Os) → Clean 0 os (rx_data topic ty b os s).1.os
  unfolding rx_data
  rx_data-Clean none os = λ h. (refl, omega arith)
  rx_data-Clean (some b) os =
      let m = malloc sizeof_channel os in
      Clean-then 0 0 os m.1 (rx_node topic ty b m.0 m.1 s).1.os (malloc-Clean sizeof_channel os)
        (rx_node-Clean b m.0 m.1)

  rx_sized-Clean : (size : Option ℕ) → Clean 6 s.os (rx_sized topic ty size s).1.os
  unfolding rx_sized
  rx_sized-Clean none = λ h. (refl, omega arith)
  rx_sized-Clean (some size) =
      let r = alloc size s.os in
      Clean-most 3 6 s.os (rx_data topic ty r.0 r.1 s).1.os (omega arith) (
        Clean-then 3 0 s.os r.1 (rx_data topic ty r.0 r.1 s).1.os (alloc-Clean size s.os)
          (rx_data-Clean r.0 r.1))

  pub add_rx_channel-Clean : Clean 6 s.os (add_rx_channel topic ty s).1.os
  unfolding add_rx_channel
  add_rx_channel-Clean = rx_sized-Clean (rx_payload_size ty)
