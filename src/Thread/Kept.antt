-- ===== src/Thread/Kept.antt =====
-- What the events of lib/foxdbg_thread.cpp keep of the channels.
use foxdbg.Base.{ℕ, suc, ◌≡◌, refl, sym, ◌∙◌, ap, List, [], ◌∷◌, Option, none, some, map, All}
use mathlib.Core.Path.{subst}
use foxdbg.Channel.{Channel}
use foxdbg.Protocol.Delivery.{ServerOk}
use foxdbg.Protocol.Session.{unsubscribed}
use foxdbg.Protocol.Session.Laws.{taken_over}
use foxdbg.Protocol.Receive.Laws.{AtMostOne, same, here, there}
use foxdbg.Protocol.Transmit.Laws.{Stamped}
use foxdbg.Registry.Invariant.{ChannelOk, Numbered}
use foxdbg.Thread.{World}

-- The channels are numbered in order and their buffers well formed, and the static buffers have their
-- sizes.
pub record WorldOk (w : World) : Type 0 where
  pub numbered : Numbered 0 w.channels
  pub channels_ok : All ChannelOk w.channels
  pub server_ok : ServerOk w.server

-- The same channels: they differ in subscriptions and stamps alone.
abbrev pub Kept : List Channel → List Channel → Type 0
Kept [] [] = Unit
Kept (c ∷ cs) (c' ∷ cs') =
    (c' ≡ record c { subscription_id = c'.subscription_id; last_tx_time = c'.last_tx_time })
    × Kept cs cs'
Kept _ _ = ⊥

pub Kept-All : (cs cs' : List Channel) → Kept cs cs' → All ChannelOk cs → All ChannelOk cs'
Kept-All [] [] k h = tt
Kept-All (c ∷ cs) [] k h = absurd k
Kept-All [] (c' ∷ cs') k h = absurd k
Kept-All (c ∷ cs) (c' ∷ cs') k h = (
  subst ChannelOk (sym k.0)
      (record { data_idle = h.0.data_idle; sized = h.0.sized; info = h.0.info }),
  Kept-All cs cs' k.1 h.1,
)

Kept-Numbered : (n : ℕ) (cs cs' : List Channel) → Kept cs cs' → Numbered n cs → Numbered n cs'
Kept-Numbered n [] [] k h = tt
Kept-Numbered n (c ∷ cs) [] k h = absurd k
Kept-Numbered n [] (c' ∷ cs') k h = absurd k
Kept-Numbered n (c ∷ cs) (c' ∷ cs') k h =
    (ap (λ (x : Channel). x.channel_id) k.0 ∙ h.0, Kept-Numbered (suc n) cs cs' k.1 h.1)

pub Kept-refl : (cs : List Channel) → Kept cs cs
Kept-refl [] = tt
Kept-refl (c ∷ cs) = (refl, Kept-refl cs)

pub AtMostOne-Kept : {cs cs' : List Channel} → AtMostOne cs cs' → Kept cs cs'
AtMostOne-Kept (same cs) = Kept-refl cs
AtMostOne-Kept (here c id cs) = (refl, Kept-refl cs)
AtMostOne-Kept (there c m) = (refl, AtMostOne-Kept m)

pub unsubscribed-Kept : (cs : List Channel) → Kept cs (map unsubscribed cs)
unsubscribed-Kept [] = tt
unsubscribed-Kept (c ∷ cs) = (refl, unsubscribed-Kept cs)

pub taken_over-Kept : (old : Option ℕ) (cs : List Channel) → Kept cs (taken_over old cs)
taken_over-Kept none cs = Kept-refl cs
taken_over-Kept (some _) cs = unsubscribed-Kept cs

pub Stamped-Kept : (cs cs' : List Channel) → Stamped cs cs' → Kept cs cs'
Stamped-Kept [] [] s = tt
Stamped-Kept (c ∷ cs) [] s = absurd s
Stamped-Kept [] (c' ∷ cs') s = absurd s
Stamped-Kept (c ∷ cs) (c' ∷ cs') s = (
  s.0
      ∙ ap (λ x. record c { subscription_id = x; last_tx_time = c'.last_tx_time })
          (sym (ap (λ (x : Channel). x.subscription_id) s.0)),
  Stamped-Kept cs cs' s.1,
)

pub Kept-WorldOk :
    (w w' : World) → WorldOk w → Kept w.channels w'.channels → ServerOk w'.server → WorldOk w'
Kept-WorldOk w w' v k s = record {
  numbered = Kept-Numbered 0 w.channels w'.channels k v.numbered;
  channels_ok = Kept-All w.channels w'.channels k v.channels_ok;
  server_ok = s;
}
