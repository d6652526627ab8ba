-- ===== src/Protocol/Receive.antt =====
-- `foxdbg_protocol_receive` of lib/foxdbg_protocol.cpp: subscribe and unsubscribe.
pub mod Laws
pub mod Subscribe
use foxdbg.Base.{
  ℕ, Bool, true, false, ◌&&◌, not, List, [], ◌∷◌, Option, none, some, ℤ, minus_one, eq_int, String,
  ◌==◌, if◌then◌else◌,
}
use foxdbg.Outcome.{Outcome, ok, fault}
use foxdbg.Json.{Json}
use foxdbg.Channel.{Channel}

-- What the handler asks of the JSON library: `none` stands for an exception. `index` is `operator[]`,
-- `iterate` the elements that a range `for` visits.
pub record JsonLib : Type 0 where
  pub parse : List ℕ → Option Json
  pub is_object : Json → Bool
  pub contains : Json → String → Bool
  pub index : Json → String → Option Json
  pub equals : Option Json → String → Bool
  pub iterate : Option Json → List Json
  pub get_int : Json → Option ℤ

-- The walk to the first channel with the id; `none` if there is none.
unfoldable pub subscribe_walk : ℤ → ℤ → List Channel → Option (List Channel)
subscribe_walk channel_id subscription_id [] = none
subscribe_walk channel_id subscription_id (c ∷ rest) =
    if eq_int c.channel_id channel_id
    then some (record c { subscription_id = subscription_id } ∷ rest)
    else (elim (subscribe_walk channel_id subscription_id rest) [
      | none ↦ none
      | some cs ↦ some (c ∷ cs)
    ])

-- The walk to the first channel with the subscription.
unfoldable pub unsubscribe_walk : ℤ → List Channel → Option (List Channel)
unsubscribe_walk subscription_id [] = none
unsubscribe_walk subscription_id (c ∷ rest) =
    if eq_int c.subscription_id subscription_id
    then some (record c { subscription_id = minus_one } ∷ rest)
    else (elim (unsubscribe_walk subscription_id rest) [ none ↦ none | some cs ↦ some (c ∷ cs) ])

module _ (lib : JsonLib) where
  unfoldable pub int_field : Json → String → Option ℤ
  int_field j key = elim (lib.index j key) [ none ↦ none | some v ↦ lib.get_int v ]

  -- The body of the loop: `none` where it goes on, with the next entry, and the list where it returns.
  subscribe_entry : Json → List Channel → Option (List Channel)
  unfolding int_field
  subscribe_entry entry cs = elim (int_field entry "id") [
    | none ↦ none
    | some subscription_id ↦ elim (int_field entry "channelId") [
      | none ↦ none
      | some channel_id ↦ subscribe_walk channel_id subscription_id cs
    ]
  ]

  unsubscribe_entry : Json → List Channel → Option (List Channel)
  unsubscribe_entry entry cs = elim (lib.get_int entry) [
    | none ↦ none
    | some subscription_id ↦ unsubscribe_walk subscription_id cs
  ]

  -- Either loop: the handler returns at the first entry whose body returns.
  until_return :
      (Json → List Channel → Option (List Channel)) → List Json → List Channel → List Channel
  until_return body [] cs = cs
  until_return body (entry ∷ rest) cs = elim (body entry cs) [
    | none ↦ until_return body rest cs
    | some done ↦ done
  ]

  -- The chain of tests of `op`; the other operations do nothing.
  dispatch : Json → List Channel → List Channel
  unfolding until_return subscribe_entry unsubscribe_entry
  dispatch j cs =
      let op = lib.index j "op" in
      if not (lib.is_object j && lib.contains j "op")
      then cs
      else if lib.equals op "subscribe"
      then (if lib.contains j "subscriptions"
          then until_return subscribe_entry (lib.iterate (lib.index j "subscriptions")) cs
          else cs)
      else if lib.equals op "unsubscribe"
      then (if lib.contains j "subscriptionIds"
          then until_return unsubscribe_entry (lib.iterate (lib.index j "subscriptionIds")) cs
          else cs)
      else cs

  -- A message with no byte or with the binary opcode is dropped. The exception of `json::parse` is not
  -- caught, and would leave through the C frames of libwebsockets.
  unfoldable pub receive : List ℕ → List Channel → Outcome (List Channel)
  unfolding dispatch
  receive [] cs = ok cs
  receive (first ∷ more) cs =
      if first == 0x01
      then ok cs
      else (elim (lib.parse (first ∷ more)) [ none ↦ fault | some j ↦ ok (dispatch j cs) ])
