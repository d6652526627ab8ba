-- ===== src/Tests/Links.antt =====
-- A list of two channels, at the addresses 10 and 20.
use foxdbg.Base.{
  ℕ, ◌≡◌, refl, List, [], ◌∷◌, some, none, String, pos, minus_one, ◌==◌, if◌then◌else◌, arith,
}
use foxdbg.Channel.{Channel}
use foxdbg.Registry.{link, find_topic}
use foxdbg.Registry.Links.{Nodes, link_node, find_node, Apart, Represents, links-Represents}
use foxdbg.Tests.Sessions.{lamp_with}

abbrev second : Channel
second = record (lamp_with minus_one) { topic_name = "/second"; channel_id = pos 1 }

abbrev two_nodes : Nodes
two_nodes = record {
  head = some 10;
  next = λ n. if n == 10 then some 20 else none;
  node = λ n. if n == 10 then lamp_with minus_one else second;
}

abbrev two_channels : List Channel
two_channels = lamp_with minus_one ∷ second ∷ []

two_nodes-Represents : Represents two_nodes (10 ∷ 20 ∷ []) two_channels
two_nodes-Represents = record {
  chain = (refl, (refl, refl));
  distinct = (((λ e. absurd (omega arith)), tt), (tt, tt));
  contents = refl;
}

links-Represents_example :
    ((topic : String)
      → find_node 3 topic two_nodes (some 10) ≡ some (find_topic topic two_channels))
    × ((new : ℕ) (c : Channel)
        → Apart new (10 ∷ 20 ∷ [])
        → (s' : Nodes) × (link_node 3 new c two_nodes ≡ some s')
          × Represents s' (10 ∷ 20 ∷ new ∷ []) (link two_channels c))
links-Represents_example =
    links-Represents two_nodes (10 ∷ 20 ∷ []) two_channels 3 two_nodes-Represents (omega arith)
