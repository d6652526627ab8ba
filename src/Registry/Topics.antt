-- ===== src/Registry/Topics.antt =====
-- `foxdbg_get_channel` after `foxdbg_add_channel`.
use foxdbg.Base.{
  ◌≡◌, ◌≢◌, refl, Bool, false, ◌||◌, List, [], ◌∷◌, ◌++◌, ℤ, minus_one, String, if◌then◌else◌, inl,
  inr, arith,
}
use text.Mathlib.Text.{◌==◌ as str_eq}
use foxdbg.Outcome.{ok}
use foxdbg.Channel.{ChannelType, Channel}
use foxdbg.Registry.{Foxdbg, add_channel, find_topic, get_channel}
use foxdbg.Registry.Invariant.{Added, add_channel-Added}

-- Some channel of the list has the topic.
unfoldable pub has_topic : String → List Channel → Bool
has_topic topic [] = false
has_topic topic (c ∷ rest) = str_eq c.topic_name topic || has_topic topic rest

find_topic-append :
    (topic : String) (cs : List Channel) (c : Channel)
    → find_topic topic (cs ++ (c ∷ [])) ≡ (
        if has_topic topic cs
        then find_topic topic cs
        else (if str_eq c.topic_name topic then c.channel_id else minus_one))
unfolding find_topic has_topic
find_topic-append topic [] c = refl
find_topic-append topic (x ∷ cs) c = ground (arith, find_topic-append topic cs c)

-- After `foxdbg_add_channel` has returned an id other than -1, `foxdbg_get_channel` gives every topic
-- that had a channel the id that it gave before, gives the added topic the returned id if it had no
-- channel, and -1 to all others: a second channel of one topic is not found by its topic.
pub get-add :
    (topic asked : String) (ty : ChannelType) (hz : ℤ) (s : Foxdbg) {r : ℤ} {s' : Foxdbg}
    → add_channel topic ty hz s ≡ ok (r, s')
    → r ≢ minus_one
    → get_channel asked s' ≡ (
        if has_topic asked s.channels
        then get_channel asked s
        else (if str_eq topic asked then r else minus_one))
unfolding get_channel
get-add topic asked ty hz s {r} {s'} e ne = go (rw e at (add_channel-Added topic ty hz s))
  where
    go :
        Added topic ty hz s (ok (r, s'))
        → find_topic asked s'.channels ≡ (
            if has_topic asked s.channels
            then find_topic asked s.channels
            else (if str_eq topic asked then r else minus_one))
    go (inl (fail, same)) = absurd (ne fail)
    go (inr (c, e, new, more)) =
        rw (more.longer, e, ← new.topic_is) (find_topic-append asked s.channels c)
