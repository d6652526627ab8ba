-- ===== src/Protocol/Receive/Laws.antt =====
-- What a message from the client changes, whatever it holds.
use foxdbg.Base.{
  ℕ, ◌≡◌, ◌⊎◌, refl, Bool, true, false, List, [], ◌∷◌, Option, none, some, ℤ, minus_one, eq_int,
  ◌==◌, if◌then◌else◌, inl, inr, Bool-cases, Option-cases, not, ◌&&◌,
}
use foxdbg.Outcome.{ok, fault}
use foxdbg.Json.{Json}
use foxdbg.Channel.{Channel}
use foxdbg.Protocol.Receive.{
  JsonLib, int_field, subscribe_walk, unsubscribe_walk, subscribe_entry, unsubscribe_entry,
  until_return, dispatch, receive,
}

-- The lists agree, but for the subscription of one channel at most.
pub data AtMostOne : List Channel → List Channel → Type 0 where
  same : (cs : List Channel) → AtMostOne cs cs
  here :
      (c : Channel) (id : ℤ) (cs : List Channel)
      → AtMostOne (c ∷ cs) (record c { subscription_id = id } ∷ cs)
  there : (c : Channel) {cs cs' : List Channel} → AtMostOne cs cs' → AtMostOne (c ∷ cs) (c ∷ cs')

abbrev Changed : List Channel → Option (List Channel) → Type 0
Changed cs none = Unit
Changed cs (some cs') = AtMostOne cs cs'

Changed-there :
    (c : Channel) (cs : List Channel) (r : Option (List Channel))
    → Changed cs r
    → Changed (c ∷ cs) (elim r [ none ↦ none | some cs' ↦ some (c ∷ cs') ])
Changed-there c cs none h = tt
Changed-there c cs (some cs') h = there c h

subscribe_walk-Changed : (ch id : ℤ) (cs : List Channel) → Changed cs (subscribe_walk ch id cs)
unfolding subscribe_walk
subscribe_walk-Changed ch id [] = tt
subscribe_walk-Changed ch id (c ∷ cs) = elim (Bool-cases (eq_int c.channel_id ch)) [
  | inl e ↦ rw e (here c id cs)
  | inr e ↦ rw e (Changed-there c cs (subscribe_walk ch id cs) (subscribe_walk-Changed ch id cs))
]

unsubscribe_walk-Changed : (id : ℤ) (cs : List Channel) → Changed cs (unsubscribe_walk id cs)
unfolding unsubscribe_walk
unsubscribe_walk-Changed id [] = tt
unsubscribe_walk-Changed id (c ∷ cs) = elim (Bool-cases (eq_int c.subscription_id id)) [
  | inl e ↦ rw e (here c minus_one cs)
  | inr e ↦ rw e (Changed-there c cs (unsubscribe_walk id cs) (unsubscribe_walk-Changed id cs))
]

either :
    {cs x y : List Channel} (b : Bool)
    → AtMostOne cs x
    → AtMostOne cs y
    → AtMostOne cs (if b then x else y)
either true hx hy = hx
either false hx hy = hy

module _ (lib : JsonLib) where
  subscribe_entry-Changed : (j : Json) (cs : List Channel) → Changed cs (subscribe_entry lib j cs)
  unfolding subscribe_entry
  subscribe_entry-Changed j cs = elim (Option-cases (int_field lib j "id")) [
    | inl e ↦ rw (e, subscribe_entry) tt
    | inr (id, e) ↦
        rw (e, subscribe_entry)
          (elim (Option-cases (int_field lib j "channelId")) [
            | inl e' ↦ rw (e', subscribe_entry) tt
            | inr (ch, e') ↦ rw (e', subscribe_entry) (subscribe_walk-Changed ch id cs)
          ])
  ]

  unsubscribe_entry-Changed :
      (j : Json) (cs : List Channel) → Changed cs (unsubscribe_entry lib j cs)
  unfolding unsubscribe_entry
  unsubscribe_entry-Changed j cs = elim (Option-cases (lib.get_int j)) [
    | inl e ↦ rw (e, unsubscribe_entry) tt
    | inr (id, e) ↦ rw (e, unsubscribe_entry) (unsubscribe_walk-Changed id cs)
  ]

  until_return-AtMostOne :
      (body : Json → List Channel → Option (List Channel))
      → ((j : Json) (cs : List Channel) → Changed cs (body j cs))
      → (js : List Json) (cs : List Channel) → AtMostOne cs (until_return lib body js cs)
  unfolding until_return
  until_return-AtMostOne body h [] cs = same cs
  until_return-AtMostOne body h (j ∷ js) cs = elim (Option-cases (body j cs)) [
    | inl e ↦ rw (e, until_return) (until_return-AtMostOne body h js cs)
    | inr (done, e) ↦ rw (e, until_return) (rw e at (h j cs))
  ]

  dispatch-AtMostOne : (j : Json) (cs : List Channel) → AtMostOne cs (dispatch lib j cs)
  unfolding dispatch
  dispatch-AtMostOne j cs =
      let sub =
        until_return-AtMostOne (subscribe_entry lib) subscribe_entry-Changed
          (lib.iterate (lib.index j "subscriptions")) cs in
      let unsub =
        until_return-AtMostOne (unsubscribe_entry lib) unsubscribe_entry-Changed
          (lib.iterate (lib.index j "subscriptionIds")) cs in
      either (not (lib.is_object j && lib.contains j "op")) (same cs) (
        either (lib.equals (lib.index j "op") "subscribe")
          (either (lib.contains j "subscriptions") sub (same cs))
          (either (lib.equals (lib.index j "op") "unsubscribe")
            (either (lib.contains j "subscriptionIds") unsub (same cs)) (same cs)))

  -- A message from the client, whatever bytes it is made of and however the JSON library reads them,
  -- changes the subscription of one channel at most, and nothing else of any channel; so a message
  -- that asks for several subscriptions is given one at most. The handler fails only where the parser
  -- throws, and then the exception leaves the handler.
  pub receive-AtMostOne :
      (bytes : List ℕ) (cs : List Channel)
      → ((cs' : List Channel) × (receive lib bytes cs ≡ ok cs') × AtMostOne cs cs')
        ⊎ ((receive lib bytes cs ≡ fault) × (lib.parse bytes ≡ none))
  unfolding receive
  receive-AtMostOne [] cs = inl (cs, refl, same cs)
  receive-AtMostOne (b ∷ bs) cs = elim (Bool-cases (b == 0x01)) [
    | inl e ↦ inl (cs, rw e refl, same cs)
    | inr e ↦ elim (Option-cases (lib.parse (b ∷ bs))) [
      | inl bad ↦ inr (rw (e, bad) refl, bad)
      | inr (j, good) ↦ inl (dispatch lib j cs, rw (e, good) refl, dispatch-AtMostOne j cs)
    ]
  ]
