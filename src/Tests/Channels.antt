-- ===== src/Tests/Channels.antt =====
-- The channel lists of lib/foxdbg.c at concrete states.
use foxdbg.Base.{
  inr, length, length-tabulate, ℕ, ◌≡◌, refl, true, List, [], ◌∷◌, Option, none, some, pos,
  minus_one, to_int, arith, tabulate,
}
use foxdbg.Outcome.{ok}
use foxdbg.Os.{Os, malloc, mutex_init}
use foxdbg.Buffer.{alloc, fresh_buffer}
use foxdbg.Buffer.Alone.Laws.{fresh-IsIdle}
use foxdbg.Channel.{Channel, integer, image, large_buffer_size, sizeof_image_info}
use foxdbg.Registry.{
  Foxdbg, link, add_channel, get_channel, write_channel, add_rx_channel, write_channel_info,
}
use foxdbg.Registry.Invariant.{ChannelOk, Added, IsValid, add_channel-Added, add_channel-IsValid}
use foxdbg.Registry.Topics.{has_topic, get-add}
use foxdbg.Registry.Writes.{Wrote, OneChanged, write_channel-Wrote}
use foxdbg.Registry.Receiving.{RxAdded, add_rx_channel-RxAdded}
use foxdbg.Registry.Infos.{Informed, write_channel_info-Informed}
use foxdbg.Registry.Leaks.{add_image-leak}

abbrev block : ℕ → ℕ
block i = i

abbrev served : List (Option (ℕ → ℕ))
served = some block ∷ some block ∷ some block ∷ some block ∷ []

abbrev os : Os
os = record { mallocs = served; inits = true ∷ true ∷ true ∷ []; live = 0; mutexes = 0; stray = 0 }

abbrev empty : Foxdbg
empty = record { channels = []; channel_count = 0; rx_channels = []; rx_channel_count = 0; os = os }

empty-IsValid : IsValid empty
empty-IsValid = record { counted = refl; numbered = tt; channels_ok = tt }

abbrev int_bytes : List ℕ
int_bytes = tabulate 4 0 block

abbrev speed : Channel
speed = record {
  topic_name = "/speed";
  target_tx_time = 100;
  last_tx_time = 0;
  channel_id = pos 0;
  subscription_id = minus_one;
  channel_type = integer;
  data_buffer = fresh_buffer 4 int_bytes int_bytes;
  info_buffer = none;
}

abbrev one_channel : Foxdbg
one_channel = record empty {
  channels = speed ∷ [];
  channel_count = 1;
  os = record { mallocs = []; inits = []; live = 4; mutexes = 3; stray = 0 };
}

-- The run of `foxdbg_add_channel`.
add_speed : add_channel "/speed" integer (pos 10) empty ≡ ok (pos 0, one_channel)
unfolding add_channel alloc malloc mutex_init to_int link
add_speed = refl

add_channel-Added_example :
    Added "/speed" integer (pos 10) empty (add_channel "/speed" integer (pos 10) empty)
add_channel-Added_example = add_channel-Added "/speed" integer (pos 10) empty

add_channel-IsValid_example : IsValid one_channel
add_channel-IsValid_example =
    add_channel-IsValid "/speed" integer (pos 10) empty empty-IsValid (omega arith) add_speed

get-add_example : get_channel "/speed" one_channel ≡ pos 0
unfolding has_topic
get-add_example =
    get-add "/speed" "/speed" integer (pos 10) empty add_speed (λ e. absurd (ground arith))

one_channel-IsValid : IsValid one_channel
one_channel-IsValid =
    add_channel-IsValid "/speed" integer (pos 10) empty empty-IsValid (omega arith) add_speed

write_channel-Wrote_example :
    (s' : Foxdbg) × (write_channel 1 (pos 0) (5 ∷ 0 ∷ 0 ∷ 0 ∷ []) one_channel ≡ ok s')
    × OneChanged (Wrote (5 ∷ 0 ∷ 0 ∷ 0 ∷ [])) 0 (speed ∷ []) s'.channels
    × (s' ≡ record one_channel { channels = s'.channels })
    × IsValid s'
write_channel-Wrote_example =
    write_channel-Wrote 1 (5 ∷ 0 ∷ 0 ∷ 0 ∷ []) one_channel one_channel-IsValid 0 (omega arith)
      (omega arith)

-- Memory for the data buffer of an image channel, and then none.
abbrev pixels : List ℕ
pixels = tabulate large_buffer_size 0 block

abbrev short_os : Os
short_os = record {
  mallocs = some block ∷ some block ∷ some block ∷ [];
  inits = true ∷ true ∷ true ∷ [];
  live = 0;
  mutexes = 0;
  stray = 0;
}

abbrev spent_os : Os
spent_os = record { mallocs = []; inits = []; live = 3; mutexes = 3; stray = 0 }

data_served :
    alloc large_buffer_size short_os
    ≡ (some (fresh_buffer large_buffer_size pixels pixels), spent_os)
unfolding alloc malloc mutex_init
data_served = refl

info_refused : alloc sizeof_image_info spent_os ≡ (none, spent_os)
unfolding alloc malloc
info_refused = refl

abbrev short : Foxdbg
short = record empty { os = short_os }

add_image-leak_example :
    (add_channel "/camera" image (pos 30) short ≡ ok (minus_one, record short { os = spent_os }))
    × (spent_os.live ≡ 3)
    × (spent_os.mutexes ≡ 3)
add_image-leak_example =
    add_image-leak "/camera" (pos 30) short (fresh_buffer large_buffer_size pixels pixels) spent_os
      spent_os data_served info_refused

add_rx_channel-RxAdded_example :
    RxAdded "/gain" integer empty (add_rx_channel "/gain" integer empty)
add_rx_channel-RxAdded_example = add_rx_channel-RxAdded "/gain" integer empty

abbrev info_bytes : List ℕ
info_bytes = tabulate sizeof_image_info 0 block

abbrev camera : Channel
camera = record {
  topic_name = "/camera";
  target_tx_time = 33;
  last_tx_time = 0;
  channel_id = pos 0;
  subscription_id = minus_one;
  channel_type = image;
  data_buffer = fresh_buffer large_buffer_size pixels pixels;
  info_buffer = some (fresh_buffer sizeof_image_info info_bytes info_bytes);
}

length-pixels : length pixels ≡ large_buffer_size
length-pixels = length-tabulate large_buffer_size 0 block

length-info_bytes : length info_bytes ≡ sizeof_image_info
length-info_bytes = length-tabulate sizeof_image_info 0 block

camera-ChannelOk : ChannelOk camera
camera-ChannelOk = record {
  data_idle = fresh-IsIdle large_buffer_size pixels pixels length-pixels length-pixels;
  sized = refl;
  info = (
    fresh-IsIdle sizeof_image_info info_bytes info_bytes length-info_bytes length-info_bytes,
    refl,
    omega arith,
  );
}

abbrev filming : Foxdbg
filming = record empty { channels = camera ∷ []; channel_count = 1 }

filming-IsValid : IsValid filming
unfolding to_int
filming-IsValid = record {
  counted = refl;
  numbered = (refl, tt);
  channels_ok = (camera-ChannelOk, tt);
}

-- 640 pixels by 480 in three channels.
abbrev size_info : List ℕ
size_info = 128 ∷ 2 ∷ 0 ∷ 0 ∷ 224 ∷ 1 ∷ 0 ∷ 0 ∷ 3 ∷ 0 ∷ 0 ∷ 0 ∷ []

write_channel_info-Informed_example :
    (s' : Foxdbg) × (write_channel_info 1 (pos 0) size_info filming ≡ ok s')
    × OneChanged (Informed size_info) 0 (camera ∷ []) s'.channels
    × (s' ≡ record filming { channels = s'.channels })
    × IsValid s'
write_channel_info-Informed_example =
    write_channel_info-Informed 1 size_info filming filming-IsValid 0 (omega arith) (omega arith)
      (inr (omega arith))
