-- ===== src/Tests/Faults.antt =====
-- An image whose info asks for too many pixels, and a transform with null pointers.
use foxdbg.Base.{ℕ, ◌==◌, List, [], ◌∷◌, none, some, pos, if◌then◌else◌}
use foxdbg.Buffer.{fresh_buffer}
use foxdbg.Channel.{Channel, image, transform}
use foxdbg.Protocol.{Env}
use foxdbg.Tests.Sessions.{env}

-- Width and height 4096, three channels.
abbrev huge : List ℕ
huge = 0 ∷ 16 ∷ 0 ∷ 0 ∷ 0 ∷ 16 ∷ 0 ∷ 0 ∷ 3 ∷ 0 ∷ 0 ∷ 0 ∷ []

abbrev pixel : List ℕ
pixel = 0 ∷ 0 ∷ 0 ∷ []

abbrev camera : Channel
camera = record {
  topic_name = "/camera";
  target_tx_time = 100;
  last_tx_time = 0;
  channel_id = pos 0;
  subscription_id = pos 5;
  channel_type = image;
  data_buffer = record (fresh_buffer 3 pixel pixel) { front_buffer_size = 3 };
  info_buffer = some (record (fresh_buffer 12 huge huge) { front_buffer_size = 12 });
}

-- 0 is `NULL`.
abbrev null_env : Env
null_env = record env { c_string = λ p. if p == 0 then none else some "" }

abbrev blank : List ℕ
blank =
    0 ∷ 0 ∷ 0 ∷ 0 ∷ 0 ∷ 0 ∷ 0 ∷ 0 ∷ 0 ∷ 0 ∷ 0 ∷ 0 ∷ 0 ∷ 0 ∷ 0 ∷ 0 ∷ 0 ∷ 0 ∷ 0 ∷ 0 ∷ 0 ∷ 0 ∷ 0 ∷ 0
    ∷ 0 ∷ 0 ∷ 0 ∷ 0 ∷ 0 ∷ 0 ∷ 0 ∷ 0 ∷ 0 ∷ 0 ∷ 0 ∷ 0 ∷ 0 ∷ 0 ∷ 0 ∷ 0 ∷ []

abbrev arm : Channel
arm = record {
  topic_name = "/arm";
  target_tx_time = 100;
  last_tx_time = 0;
  channel_id = pos 0;
  subscription_id = pos 5;
  channel_type = transform;
  data_buffer = record (fresh_buffer 40 blank blank) { front_buffer_size = 40 };
  info_buffer = none;
}
