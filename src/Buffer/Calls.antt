-- ===== src/Buffer/Calls.antt =====
-- The accesses of lib/foxdbg_buffer.c: each function is the list of what it does to the shared
-- buffer, in order, so that it can be run alone or interleaved with other threads.
use foxdbg.Base.{
  ℕ, Bool, true, false, List, [], ◌∷◌, ◌++◌, Option, none, some, length, take, leb, ◌==◌,
  if◌then◌else◌, memcpy,
}
use foxdbg.Outcome.{Outcome, ok, blocked, fault, ◌>>=◌}
use foxdbg.Buffer.{Half, FoxdbgBuffer, half_bytes, set_half}

pub data Mutex : Type 0 where
  write read swap : Mutex

-- One access. `copy_in d` is `memcpy (data, d, size)` through the pointer that `begin_write` gave;
-- `copy_out accept` is the copy that a reader makes after `begin_read`, if it accepts the size.
-- Under the mutexes no other thread can come between the assignments of `exchange`.
pub data Access : Type 0 where
  lock : Mutex → Access
  unlock : Mutex → Access
  get_back : Access
  get_front : Access
  copy_in : List ℕ → Access
  set_size : ℕ → Access
  exchange : Access
  copy_out : (ℕ → Bool) → Access

-- `swap_buffers`
abbrev pub swap_buffers : List Access
swap_buffers =
    lock swap ∷ lock read ∷ lock write ∷ exchange ∷ unlock write ∷ unlock read ∷ unlock swap ∷ []

-- `foxdbg_buffer_begin_write`
abbrev pub begin_write : List Access
begin_write = lock swap ∷ lock write ∷ get_back ∷ []

-- `foxdbg_buffer_end_write`
abbrev pub end_write : ℕ → List Access
end_write populated_size = set_size populated_size ∷ unlock write ∷ unlock swap ∷ swap_buffers

-- `foxdbg_buffer_begin_read`
abbrev pub begin_read : List Access
begin_read = lock swap ∷ lock read ∷ get_front ∷ []

-- `foxdbg_buffer_end_read`
abbrev pub end_read : List Access
end_read = unlock read ∷ unlock swap ∷ []

-- What `foxdbg_write_channel` does to the data buffer: `size` against the size that `begin_write`
-- reports, which is `buffer_size`.
abbrev pub write_frame : ℕ → List ℕ → List Access
write_frame buffer_size data_in =
    begin_write
    ++ (if leb (length data_in) buffer_size
        then copy_in data_in ∷ end_write (length data_in)
        else end_write 0)

-- What `foxdbg_write_channel_info` does to the info buffer.
abbrev pub write_info : ℕ → List ℕ → List Access
write_info buffer_size data_in =
    begin_write
    ++ ((if leb (length data_in) buffer_size then copy_in data_in ∷ [] else [])
        ++ end_write (length data_in))

-- How the senders of lib/foxdbg_protocol.cpp read a buffer: copy if the size passes, and end the
-- read in either case. `send_pointcloud` does the same and then reads the buffer once more, outside
-- every lock, which is not part of this call.
abbrev pub read_frame : (ℕ → Bool) → List Access
read_frame accept = begin_read ++ (copy_out accept ∷ end_read)

-- What a thread holds between its accesses: `data` and `size` as `begin_write` or `begin_read` gave
-- them, and what its last `copy_out` took, if anything.
pub record Local : Type 0 where
  pub ptr : Half
  pub size : ℕ
  pub copied : Option (List ℕ)

abbrev pub owns : Option ℕ → ℕ → Bool
owns none t = false
owns (some owner) t = owner == t

abbrev pub Result : Type 0
Result = Outcome (FoxdbgBuffer × Local)

-- `pthread_mutex_lock`: a thread waits while the mutex is held.
acquire : Option ℕ → Result → Result
acquire none r = r
acquire (some _) r = blocked

-- `pthread_mutex_unlock` of a mutex that the thread does not hold is undefined.
release : Bool → Result → Result
release true r = r
release false r = fault

store : FoxdbgBuffer → Local → Option (List ℕ) → Result
store b l none = fault
store b l (some bytes) = ok (set_half b l.ptr bytes, l)

load : FoxdbgBuffer → Local → List ℕ → Result
load b l bytes =
    if leb l.size (length bytes)
    then ok (b, record l { copied = some (take l.size bytes) })
    else fault

-- Thread `t` makes one access.
unfoldable pub exec : ℕ → Access → FoxdbgBuffer → Local → Result
unfolding acquire release store load half_bytes set_half
exec t (lock swap) b l = acquire b.swap_mutex (ok (record b { swap_mutex = some t }, l))
exec t (lock read) b l = acquire b.read_mutex (ok (record b { read_mutex = some t }, l))
exec t (lock write) b l = acquire b.write_mutex (ok (record b { write_mutex = some t }, l))
exec t (unlock swap) b l = release (owns b.swap_mutex t) (ok (record b { swap_mutex = none }, l))
exec t (unlock read) b l = release (owns b.read_mutex t) (ok (record b { read_mutex = none }, l))
exec t (unlock write) b l = release (owns b.write_mutex t) (ok (record b { write_mutex = none }, l))
exec t get_back b l = ok (b, record l { ptr = b.back_buffer; size = b.buffer_size })
exec t get_front b l = ok (b, record l { ptr = b.front_buffer; size = b.front_buffer_size })
exec t (copy_in d) b l = store b l (memcpy (half_bytes b l.ptr) 0 d)
exec t (set_size n) b l = ok (record b { back_buffer_size = n }, l)
exec t exchange b l = ok (
  record b {
    front_buffer = b.back_buffer;
    back_buffer = b.front_buffer;
    front_buffer_size = b.back_buffer_size;
    back_buffer_size = b.front_buffer_size;
  },
  l,
)
exec t (copy_out accept) b l =
    if accept l.size then load b l (half_bytes b l.ptr) else ok (b, record l { copied = none })

-- A thread that runs with no other.
unfoldable pub run : ℕ → List Access → FoxdbgBuffer × Local → Result
unfolding exec
run t [] (b, l) = ok (b, l)
run t (a ∷ code) (b, l) = exec t a b l >>= run t code
