-- ===== src/Chat/Tests.antt =====
-- 3-budget-chat/main.go: two sessions in a room.
use protohackers.Prelude.{
  some, ℕ, zero, suc, ◌≡◌, refl, true, false, inl, inr, List, [], ◌∷◌, ◌++◌, Bytes, codes, length,
}
use protohackers.Prelude.TextLines.{lines}
use protohackers.Chat.{
  Event, message, ChatRoom, new_room, taken, register, Session, inside, ended, sign_in,
  read_message, read_bytes, trim_left, trim_right, send_message, send_event,
}
use protohackers.Chat.Delivery.{HasMember, loop, texts_for}
use protohackers.Chat.Members.{IsRoom}
use protohackers.Chat.Rooms.{Reach, begin, later, enters, Reach-IsRoom, delivered}
use protohackers.Chat.Broken.{Goes, rests, goes, broken_name_taken}
use protohackers.Chat.Lock.{
  Threads, Runs, stop, then_moves, ends, at_lock, set_pc, blocked_threads, all_read, received,
  write_locked, full_channel_blocks,
}

abbrev room_of : Session → ChatRoom
room_of (inside name rest r) = r
room_of (ended r) = r
room_of s = new_room

abbrev bob_in : ChatRoom
bob_in = room_of (sign_in 0 true (codes "bob" ++ 10 ∷ []) new_room)

abbrev both_in : ChatRoom
both_in = room_of (sign_in 1 true (codes "amy" ++ 13 ∷ 10 ∷ codes "hi" ++ 10 ∷ []) bob_in)

bob_enters : Reach 1 bob_in
unfolding sign_in read_message read_bytes trim_left trim_right register send_event send_message
bob_enters = later begin (enters true (codes "bob" ++ 10 ∷ []) (codes "bob") [] refl)

both_enter : Reach 2 both_in
unfolding sign_in read_message read_bytes trim_left trim_right register send_event send_message
both_enter = later bob_enters (
    enters true (codes "amy" ++ 13 ∷ 10 ∷ codes "hi" ++ 10 ∷ []) (codes "amy")
      (codes "hi" ++ 10 ∷ []) refl)

Reach-IsRoom_example : IsRoom 2 both_in
Reach-IsRoom_example = Reach-IsRoom both_enter

bob_is_in : HasMember (codes "bob") 0 both_in.users
unfolding sign_in read_message read_bytes trim_left trim_right register send_event send_message
bob_is_in = inr (inl (refl, refl))

delivered_example :
    let r' = loop (length both_in.event) both_in in
    (new : Bytes) × (r'.written 0 ≡ both_in.written 0 ++ new)
    × (lines new ≡ texts_for (codes "bob") both_in.event)
    × (r'.event ≡ [])
delivered_example = delivered both_in (codes "bob") 0 both_enter bob_is_in

-- Bob reads that Amy has entered.
bob_reads : texts_for (codes "bob") both_in.event ≡ codes "* amy has entered the room" ∷ []
unfolding sign_in read_message read_bytes trim_left trim_right register send_event send_message
bob_reads = refl

bob_reads_name : read_message (codes "bob" ++ 10 ∷ []) ≡ some (codes "bob", [])
unfolding read_message read_bytes trim_left trim_right
bob_reads_name = refl

-- Bob, whose connection fails, and Amy, who enters after him.
abbrev bob_broken : ChatRoom
bob_broken = room_of (sign_in 0 false (codes "bob" ++ 10 ∷ []) new_room)

abbrev amy_after : ChatRoom
amy_after = room_of (sign_in 1 true (codes "amy" ++ 10 ∷ []) bob_broken)

bob_ends : sign_in 0 false (codes "bob" ++ 10 ∷ []) new_room ≡ ended bob_broken
unfolding sign_in read_message read_bytes trim_left trim_right register send_event send_message
bob_ends = refl

amy_enters_after : Goes 0 1 bob_broken 2 amy_after
unfolding sign_in read_message read_bytes trim_left trim_right register send_event send_message
amy_enters_after = goes rests (enters true (codes "amy" ++ 10 ∷ []) (codes "amy") [] refl) tt

broken_name_taken_example : register (codes "bob") 2 true amy_after ≡ taken
broken_name_taken_example =
    broken_name_taken (codes "bob" ++ 10 ∷ []) (codes "bob") [] 2 true begin bob_reads_name refl
      refl bob_ends amy_enters_after

abbrev hello : Event
hello = record { user = codes "bob"; type = message; text = codes "hello" }

abbrev hellos : ℕ → List Event
hellos zero = []
hellos (suc n) = hello ∷ hellos n

-- A third session that leaves waits for the lock.
abbrev third_waits : Threads
third_waits = record (blocked_threads hello (hellos 100)) {
  pc = set_pc 2 at_lock (blocked_threads hello (hellos 100)).pc;
}

full_channel_blocks_example :
    Runs all_read (blocked_threads hello (hellos 100))
    × (third_waits.event ≡ hellos 100)
    × (third_waits.looper ≡ received hello)
    × (third_waits.lock ≡ write_locked 1)
full_channel_blocks_example =
    full_channel_blocks hello (hellos 100) third_waits refl (then_moves stop (ends 2 refl))
