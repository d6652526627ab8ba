-- ===== src/Registry/Links.antt =====
-- The linked list of channels of lib/foxdbg.c as nodes and pointers, and that the walks on it do what the
-- lists of Registry say.
use foxdbg.Base.{
  ℕ, zero, suc, ◌≡◌, ◌≢◌, ◌<◌, refl, sym, ◌∙◌, ap, false, List, [], ◌∷◌, ◌++◌, Option, none, some,
  ℤ, minus_one, String, map, length, All, All-append, ◌==◌, ==_refl, if◌then◌else◌, arith,
  Bool-cases, inl, inr,
}
use mathlib.Core.Path.{subst, ap₂}
use text.Mathlib.Text.{◌==◌ as str_eq}
use foxdbg.Buffer.Threads.{update}
use foxdbg.Channel.{Channel}
use foxdbg.Registry.{link, find_topic}
use foxdbg.Registry.Invariant.{link-eq-append}

-- Nodes by address: their `next`, and all else that they hold; `head` is the static variable.
pub record Nodes : Type 0 where
  pub head : Option ℕ
  pub next : ℕ → Option ℕ
  pub node : ℕ → Channel

-- `while (current->next) current = current->next`, or `none` where the fuel is not enough.
last_from : ℕ → (ℕ → Option ℕ) → ℕ → Option ℕ
last_from zero next current = none
last_from (suc fuel) next current = elim (next current) [
  | none ↦ some current
  | some n ↦ last_from fuel next n
]

-- A fresh node is filled, and linked behind the last one or as the first.
written : ℕ → Channel → Nodes → Nodes
written new c s = record s { next = update s.next new none; node = update s.node new c }

attach : ℕ → Nodes → Option ℕ → Option Nodes
attach new s none = none
attach new s (some current) = some (record s { next = update s.next current (some new) })

attach_at : ℕ → ℕ → Nodes → Option ℕ → Option Nodes
attach_at fuel new s none = some (record s { head = some new })
attach_at fuel new s (some first) = attach new s (last_from fuel s.next first)

pub link_node : ℕ → ℕ → Channel → Nodes → Option Nodes
unfolding last_from attach attach_at written
link_node fuel new c s = attach_at fuel new (written new c s) s.head

-- The walk of `foxdbg_get_channel`.
pub find_node : ℕ → String → Nodes → Option ℕ → Option ℤ
find_node zero topic s current = none
find_node (suc fuel) topic s none = some minus_one
find_node (suc fuel) topic s (some n) =
    let later = find_node fuel topic s (s.next n) in
    if str_eq (s.node n).topic_name topic then some (s.node n).channel_id else later

-- The pointers lead from `p` through the addresses to the end.
abbrev pub Chain : (ℕ → Option ℕ) → Option ℕ → List ℕ → Type 0
Chain next p [] = p ≡ none
Chain next p (n ∷ ns) = (p ≡ some n) × Chain next (next n) ns

abbrev pub Apart : ℕ → List ℕ → Type 0
Apart n ns = All (λ k. n ≢ k) ns

abbrev pub Distinct : List ℕ → Type 0
Distinct [] = Unit
Distinct (n ∷ ns) = Apart n ns × Distinct ns

-- The nodes at these different addresses, in this order, hold the channels.
pub record Represents (s : Nodes) (ns : List ℕ) (cs : List Channel) : Type 0 where
  pub chain : Chain s.next s.head ns
  pub distinct : Distinct ns
  pub contents : map s.node ns ≡ cs

last_of : ℕ → List ℕ → ℕ
last_of n [] = n
last_of n (m ∷ ms) = last_of m ms

All-last_of : (P : ℕ → Type 0) (n : ℕ) (ns : List ℕ) → P n → All P ns → P (last_of n ns)
unfolding last_of
All-last_of P n [] h hs = h
All-last_of P n (m ∷ ms) h hs = All-last_of P m ms hs.0 hs.1

last_from-last_of :
    (fuel : ℕ) (next : ℕ → Option ℕ) (n : ℕ) (ns : List ℕ)
    → Chain next (next n) ns
    → length ns < fuel
    → last_from fuel next n ≡ some (last_of n ns)
unfolding last_from last_of
last_from-last_of zero next n ns h lt = absurd (omega arith)
last_from-last_of (suc fuel) next n [] h lt = rw (h, last_from) refl
last_from-last_of (suc fuel) next n (m ∷ ms) h lt =
    rw (h.0, last_from) (last_from-last_of fuel next m ms h.1 (omega arith))

update-at {ℓ} : {A : Type ℓ} (f : ℕ → A) (i : ℕ) (x : A) → update f i x i ≡ x
update-at f i x = rw (==_refl i) refl

update-apart {ℓ} : {A : Type ℓ} (f : ℕ → A) (i j : ℕ) (x : A) → i ≢ j → update f i x j ≡ f j
update-apart f i j x ne = let e : (i == j) ≡ false = ground arith in rw e refl

-- A chain that does not touch the address keeps, and so does what it holds.
Chain-Apart :
    (next : ℕ → Option ℕ) (i : ℕ) (x : Option ℕ) (p : Option ℕ) (ns : List ℕ)
    → Apart i ns
    → Chain next p ns
    → Chain (update next i x) p ns
Chain-Apart next i x p [] h c = c
Chain-Apart next i x p (n ∷ ns) h c = (
  c.0,
  subst (λ q. Chain (update next i x) q ns) (sym (update-apart next i n x h.0))
      (Chain-Apart next i x (next n) ns h.1 c.1),
)

map-Apart :
    (f : ℕ → Channel) (i : ℕ) (x : Channel) (ns : List ℕ)
    → Apart i ns
    → map (update f i x) ns ≡ map f ns
map-Apart f i x [] h = refl
map-Apart f i x (n ∷ ns) h =
    ap₂ (λ y ys. y ∷ ys) (update-apart f i n x h.0) (map-Apart f i x ns h.1)

map-append : (f : ℕ → Channel) (xs ys : List ℕ) → map f (xs ++ ys) ≡ map f xs ++ map f ys
map-append f [] ys = refl
map-append f (x ∷ xs) ys = ap (λ r. f x ∷ r) (map-append f xs ys)

Distinct-append : (new : ℕ) (ns : List ℕ) → Apart new ns → Distinct ns → Distinct (ns ++ (new ∷ []))
Distinct-append new [] h d = (tt, tt)
Distinct-append new (n ∷ ns) h d = (
  All-append (λ k. n ≢ k) (new ∷ []) ((λ e. absurd (h.0 (sym e))), tt) ns d.0,
  Distinct-append new ns h.1 d.1,
)

-- The chain from a node on, once its last has been made to lead to the new one.
Chain-attached :
    (next : ℕ → Option ℕ) (new n : ℕ) (ns : List ℕ)
    → next new ≡ none
    → Chain next (next n) ns
    → Distinct (n ∷ ns)
    → Apart new (n ∷ ns)
    → let next' = update next (last_of n ns) (some new) in Chain next' (next' n) (ns ++ (new ∷ []))
unfolding last_of
Chain-attached next new n [] z c d h = (
  update-at next n (some new),
  update-apart next n new (some new) (λ e. absurd (h.0 (sym e))) ∙ z,
)
Chain-attached next new n (m ∷ ms) z c d h =
    let l = last_of m ms in
    let ne : l ≢ n = λ e. absurd (All-last_of (λ k. n ≢ k) m ms d.0.0 d.0.1 (sym e)) in
    (update-apart next l n (some new) ne ∙ c.0, Chain-attached next new m ms z c.1 d.1 h.1)

contents-written :
    (s : Nodes) (new : ℕ) (c : Channel) (ns : List ℕ) (cs : List Channel)
    → Apart new ns
    → map s.node ns ≡ cs
    → map (update s.node new c) (ns ++ (new ∷ [])) ≡ link cs c
contents-written s new c ns cs fresh e =
    map-append (update s.node new c) ns (new ∷ [])
    ∙ ap₂ (λ xs x. xs ++ (x ∷ [])) (map-Apart s.node new c ns fresh ∙ e) (update-at s.node new c)
    ∙ sym (link-eq-append cs c)

attach_at-Represents :
    (fuel new : ℕ) (c : Channel) (s : Nodes) (ns : List ℕ) (cs : List Channel) (p : Option ℕ)
    → s.head ≡ p
    → Represents s ns cs
    → Apart new ns
    → length ns < fuel
    → (s' : Nodes) × (attach_at fuel new (written new c s) p ≡ some s')
      × Represents s' (ns ++ (new ∷ [])) (link cs c)
unfolding attach_at written attach
attach_at-Represents fuel new c s [] cs (some first) is v fresh lt =
    absurd (let e = sym is ∙ v.chain in cc)
attach_at-Represents fuel new c s (n ∷ ns) cs none is v fresh lt =
    absurd (let e = sym is ∙ v.chain.0 in cc)
attach_at-Represents fuel new c s [] cs none is v fresh lt = (
  _,
  refl,
  record {
    chain = (refl, update-at s.next new none);
    distinct = (tt, tt);
    contents = contents-written s new c [] cs tt v.contents;
  },
)
attach_at-Represents fuel new c s (n ∷ ns) cs (some first) is v fresh lt =
    let next1 = update s.next new none in
    let same : first ≡ n = some-injective (sym is ∙ v.chain.0) in
    let chain1 : Chain next1 (next1 n) ns =
      subst (λ q. Chain next1 q ns) (sym (update-apart s.next new n none fresh.0))
        (Chain-Apart s.next new none (s.next n) ns fresh.1 v.chain.1) in
    let found : last_from fuel next1 first ≡ some (last_of n ns) =
      ap (last_from fuel next1) same ∙ last_from-last_of fuel next1 n ns chain1 (omega arith) in
    let s1 : Nodes = record {
      head = s.head;
      next = update next1 (last_of n ns) (some new);
      node = update s.node new c;
    } in
    (
      s1,
      ap (attach new (record { head = s.head; next = next1; node = update s.node new c })) found,
      record {
        chain = (
          v.chain.0,
          Chain-attached next1 new n ns (update-at s.next new none) chain1 v.distinct fresh,
        );
        distinct = Distinct-append new (n ∷ ns) fresh v.distinct;
        contents = contents-written s new c (n ∷ ns) cs fresh v.contents;
      },
    )
  where
    some-injective : {x y : ℕ} → some x ≡ some y → x ≡ y
    some-injective e = cc

find_node-eq :
    (fuel : ℕ) (topic : String) (s : Nodes) (p : Option ℕ) (ns : List ℕ)
    → Chain s.next p ns
    → length ns < fuel
    → find_node fuel topic s p ≡ some (find_topic topic (map s.node ns))
unfolding find_node find_topic
find_node-eq zero topic s p ns h lt = absurd (omega arith)
find_node-eq (suc fuel) topic s p [] h lt =
    subst (λ q. find_node (suc fuel) topic s q ≡ some minus_one) (sym h) refl
find_node-eq (suc fuel) topic s p (n ∷ ns) h lt =
    let later = find_node-eq fuel topic s (s.next n) ns h.1 (omega arith) in
    subst (λ q. find_node (suc fuel) topic s q ≡ some (find_topic topic (map s.node (n ∷ ns))))
      (sym h.0)
      (elim (Bool-cases (str_eq (s.node n).topic_name topic)) [
        | inl yes_it ↦ rw yes_it refl
        | inr not_it ↦ rw not_it later
      ])

-- Where nodes at different addresses hold a list of channels, the loops on their pointers end, in at
-- most one round more than there are channels, and do what the list says: the walk of
-- `foxdbg_get_channel` finds what it finds in the list; and the walk of `foxdbg_add_channel` to the last
-- node, with its write of a node at any other address, leaves the nodes holding the list with that
-- channel linked behind the last, the other nodes with what they held.
pub links-Represents :
    (s : Nodes) (ns : List ℕ) (cs : List Channel) (fuel : ℕ)
    → Represents s ns cs
    → length ns < fuel
    → ((topic : String) → find_node fuel topic s s.head ≡ some (find_topic topic cs))
      × ((new : ℕ) (c : Channel)
          → Apart new ns
          → (s' : Nodes) × (link_node fuel new c s ≡ some s')
            × Represents s' (ns ++ (new ∷ [])) (link cs c))
unfolding link_node
links-Represents s ns cs fuel v lt = (
  λ topic.
      find_node-eq fuel topic s s.head ns v.chain lt
      ∙ ap (λ l. some (find_topic topic l)) v.contents,
  λ new c fresh. attach_at-Represents fuel new c s ns cs s.head refl v fresh lt,
)
