-- ===== src/Bluetooth/Framing.antt =====
-- pymammotion/bluetooth/ble_message.py with data/framectrldata.py, data/notifydata.py and
-- model/atomic_integer.py: the frames that carry a message to the device, and their parsing. Bytes
-- are numbers. A sequence counter starts at -1 and is kept as its value plus 256, which has the same
-- low byte. Encryption is a flag only: no frame is encrypted.
pub mod Checksum
pub mod Reading
pub mod RoundTrip
use Prim.Native.Nat.{bit_or, bit_xor}
use py_mammotion.Base.{
  ℕ, zero, suc, ◌+◌, ◌-◌, ◌*◌, ◌/◌, ◌%◌, ◌^◌, Bool, true, false, ◌&&◌, ◌||◌, not, Option, none,
  some, List, [], ◌∷◌, ◌++◌, ◌==◌, nat_keys, if◌then◌else◌, ltb, leb, length,
}

-- `data[:n]`
unfoldable pub take : ℕ → List ℕ → List ℕ
take zero xs = []
take (suc n) [] = []
take (suc n) (x ∷ xs) = x ∷ take n xs

-- `data[n:]`
unfoldable pub drop : ℕ → List ℕ → List ℕ
drop zero xs = xs
drop (suc n) [] = []
drop (suc n) (x ∷ xs) = drop n xs

unfoldable pub check : ℕ → ℕ → Bool
check value position = value / 2 ^ position % 2 == 1

abbrev pub flag : Bool → ℕ → ℕ → ℕ
flag b bit frame = if b then bit_or frame bit else frame

unfoldable pub get_frame_ctrl_value : Bool → Bool → ℕ → Bool → Bool → ℕ
get_frame_ctrl_value encrypted checksum direction require_ack frag =
    flag frag 16
      (flag require_ack 8 (flag (direction == 1) 4 (flag checksum 2 (flag encrypted 1 0))))

pub crc_tb : List ℕ
crc_tb =
    0 ∷ 4129 ∷ 8258 ∷ 12387 ∷ 16516 ∷ 20645 ∷ 24774 ∷ 28903 ∷ 33032 ∷ 37161 ∷ 41290 ∷ 45419 ∷ 49548
    ∷ 53677 ∷ 57806 ∷ 61935 ∷ 4657 ∷ 528 ∷ 12915 ∷ 8786 ∷ 21173 ∷ 17044 ∷ 29431 ∷ 25302 ∷ 37689
    ∷ 33560 ∷ 45947 ∷ 41818 ∷ 54205 ∷ 50076 ∷ 62463 ∷ 58334 ∷ 9314 ∷ 13379 ∷ 1056 ∷ 5121 ∷ 25830
    ∷ 29895 ∷ 17572 ∷ 21637 ∷ 42346 ∷ 46411 ∷ 34088 ∷ 38153 ∷ 58862 ∷ 62927 ∷ 50604 ∷ 54669 ∷ 13907
    ∷ 9842 ∷ 5649 ∷ 1584 ∷ 30423 ∷ 26358 ∷ 22165 ∷ 18100 ∷ 46939 ∷ 42874 ∷ 38681 ∷ 34616 ∷ 63455
    ∷ 59390 ∷ 55197 ∷ 51132 ∷ 18628 ∷ 22757 ∷ 26758 ∷ 30887 ∷ 2112 ∷ 6241 ∷ 10242 ∷ 14371 ∷ 51660
    ∷ 55789 ∷ 59790 ∷ 63919 ∷ 35144 ∷ 39273 ∷ 43274 ∷ 47403 ∷ 23285 ∷ 19156 ∷ 31415 ∷ 27286 ∷ 6769
    ∷ 2640 ∷ 14899 ∷ 10770 ∷ 56317 ∷ 52188 ∷ 64447 ∷ 60318 ∷ 39801 ∷ 35672 ∷ 47931 ∷ 43802 ∷ 27814
    ∷ 31879 ∷ 19684 ∷ 23749 ∷ 11298 ∷ 15363 ∷ 3168 ∷ 7233 ∷ 60846 ∷ 64911 ∷ 52716 ∷ 56781 ∷ 44330
    ∷ 48395 ∷ 36200 ∷ 40265 ∷ 32407 ∷ 28342 ∷ 24277 ∷ 20212 ∷ 15891 ∷ 11826 ∷ 7761 ∷ 3696 ∷ 65439
    ∷ 61374 ∷ 57309 ∷ 53244 ∷ 48923 ∷ 44858 ∷ 40793 ∷ 36728 ∷ 37256 ∷ 33193 ∷ 45514 ∷ 41451 ∷ 53516
    ∷ 49453 ∷ 61774 ∷ 57711 ∷ 4224 ∷ 161 ∷ 12482 ∷ 8419 ∷ 20484 ∷ 16421 ∷ 28742 ∷ 24679 ∷ 33721
    ∷ 37784 ∷ 41979 ∷ 46042 ∷ 49981 ∷ 54044 ∷ 58239 ∷ 62302 ∷ 689 ∷ 4752 ∷ 8947 ∷ 13010 ∷ 16949
    ∷ 21012 ∷ 25207 ∷ 29270 ∷ 46570 ∷ 42443 ∷ 38312 ∷ 34185 ∷ 62830 ∷ 58703 ∷ 54572 ∷ 50445 ∷ 13538
    ∷ 9411 ∷ 5280 ∷ 1153 ∷ 29798 ∷ 25671 ∷ 21540 ∷ 17413 ∷ 42971 ∷ 47098 ∷ 34713 ∷ 38840 ∷ 59231
    ∷ 63358 ∷ 50973 ∷ 55100 ∷ 9939 ∷ 14066 ∷ 1681 ∷ 5808 ∷ 26199 ∷ 30326 ∷ 17941 ∷ 22068 ∷ 55628
    ∷ 51565 ∷ 63758 ∷ 59695 ∷ 39368 ∷ 35305 ∷ 47498 ∷ 43435 ∷ 22596 ∷ 18533 ∷ 30726 ∷ 26663 ∷ 6336
    ∷ 2273 ∷ 14466 ∷ 10403 ∷ 52093 ∷ 56156 ∷ 60223 ∷ 64286 ∷ 35833 ∷ 39896 ∷ 43963 ∷ 48026 ∷ 19061
    ∷ 23124 ∷ 27191 ∷ 31254 ∷ 2801 ∷ 6864 ∷ 10931 ∷ 14994 ∷ 64814 ∷ 60687 ∷ 56684 ∷ 52557 ∷ 48554
    ∷ 44427 ∷ 40424 ∷ 36297 ∷ 31782 ∷ 27655 ∷ 23652 ∷ 19525 ∷ 15522 ∷ 11395 ∷ 7392 ∷ 3265 ∷ 61215
    ∷ 65342 ∷ 53085 ∷ 57212 ∷ 44955 ∷ 49082 ∷ 36825 ∷ 40952 ∷ 28183 ∷ 32310 ∷ 20053 ∷ 24180 ∷ 11923
    ∷ 16050 ∷ 3793 ∷ 7920 ∷ []

pub at : List ℕ → ℕ → ℕ
at [] i = 0
at (x ∷ xs) zero = x
at (x ∷ xs) (suc i) = at xs i

-- `~x & 0xFFFF` of a 16-bit word.
abbrev pub invert : ℕ → ℕ
invert x = bit_xor x 65535

pub crc_step : ℕ → ℕ → ℕ
crc_step crc byte = bit_xor (crc * 256) (at crc_tb (bit_xor byte (crc / 256))) % 65536

pub crc_loop : ℕ → List ℕ → ℕ
crc_loop crc [] = crc
crc_loop crc (byte ∷ content) = crc_loop (crc_step crc byte) content

-- `initial` is in range at every call.
unfoldable pub calc_crc : ℕ → List ℕ → ℕ
unfolding crc_loop crc_step at crc_tb
calc_crc initial content = invert (crc_loop (invert initial) content)

abbrev pub max_data_len : ℕ
max_data_len = 255

abbrev pub frag_content_len : ℕ
frag_content_len = 253

-- The arguments that `post` hands on unchanged.
pub record PostOptions : Type 0 where
  pub encrypt : Bool
  pub checksum : Bool
  pub require_ack : Bool
  pub type_of : ℕ

-- `to_bytes(1)` raises if the number has no single byte.
unfoldable pub get_post_bytes : PostOptions → Bool → ℕ → List ℕ → Option (List ℕ)
get_post_bytes o has_frag sequence content =
    if ltb o.type_of 256 && ltb sequence 256 && ltb (length content) 256
    then some (
        o.type_of
        ∷ get_frame_ctrl_value o.encrypt o.checksum 0 o.require_ack has_frag
        ∷ sequence
        ∷ length content
        ∷ content)
    else none

pub data PostOutcome : Type 0 where
  sent no_ack raised out_of_fuel : PostOutcome

-- The frames that were written, the send counter, and how the post ended.
pub record Posted : Type 0 where
  pub frames : List (List ℕ)
  pub send_sequence : ℕ
  pub outcome : PostOutcome

ended : ℕ → PostOutcome → Posted
ended send_sequence outcome = record {
  frames = [];
  send_sequence = send_sequence;
  outcome = outcome;
}

-- The data section of the next frame: a fragment has the remaining length before its content, which
-- `to_bytes(2)` refuses from 65536 on.
unfoldable pub next_chunk : List ℕ → Option (List ℕ)
next_chunk content =
    if ltb max_data_len (length content)
    then (if ltb (length content) 65536
        then some (length content % 256 ∷ length content / 256 ∷ take frag_content_len content)
        else none)
    else some content

unfoldable pub remaining_after : List ℕ → List ℕ
remaining_after content =
    if ltb max_data_len (length content) then drop frag_content_len content else []

write_frame : PostOptions → (ℕ → Bool) → ℕ → Option (List ℕ) → Posted → Posted
unfolding ended
write_frame o acked sequence none rest = ended (sequence + 1) raised
write_frame o acked sequence (some frame) rest =
    if o.require_ack && not (acked ((sequence + 1) % 256))
    then record { frames = frame ∷ []; send_sequence = sequence + 1; outcome = no_ack }
    else record rest { frames = frame ∷ rest.frames }

write_chunk : PostOptions → (ℕ → Bool) → ℕ → Bool → Option (List ℕ) → Posted → Posted
unfolding write_frame ended
write_chunk o acked sequence frag none rest = ended sequence raised
write_chunk o acked sequence frag (some chunk) rest =
    write_frame o acked sequence (get_post_bytes o frag ((sequence + 1) % 256) chunk) rest

-- The `while` loop; `acked` tells whether the next ack that arrives is for the given sequence number.
unfoldable pub post_loop : ℕ → PostOptions → (ℕ → Bool) → ℕ → List ℕ → Posted
unfolding write_chunk ended
post_loop zero o acked sequence content = ended sequence out_of_fuel
post_loop (suc fuel) o acked sequence [] = ended sequence sent
post_loop (suc fuel) o acked sequence (x ∷ xs) =
    let rest = post_loop fuel o acked (sequence + 1) (remaining_after (x ∷ xs)) in
    write_chunk o acked sequence (ltb max_data_len (length (x ∷ xs))) (next_chunk (x ∷ xs)) rest

unfoldable pub post_contains_data : PostOptions → (ℕ → Bool) → ℕ → List ℕ → Posted
unfolding post_loop
post_contains_data o acked sequence content =
    post_loop (suc (length content)) o acked sequence content

pub record Notification : Type 0 where
  pub type_value : ℕ
  pub pkg_type : ℕ
  pub sub_type : ℕ
  pub frame_ctrl : ℕ
  pub data' : List ℕ

abbrev pub empty : Notification
empty = record { type_value = 0; pkg_type = 0; sub_type = 0; frame_ctrl = 0; data' = [] }

pub record Reader : Type 0 where
  pub read_sequence : ℕ
  pub notification : Notification

-- The result codes -1, -2, 2, -4, 1 and 0. The code -100 stands for an exception that no step raises.
pub data Parsed : Type 0 where
  no_response too_short duplicate bad_checksum fragment complete : Parsed

-- The counter, and the buffer, after a frame that is not a duplicate.
unfoldable pub accept_sequence : Reader → ℕ → Reader
accept_sequence r sequence =
    if (r.read_sequence + 1) % 256 == sequence
    then record r { read_sequence = r.read_sequence + 1 }
    else record { read_sequence = sequence + 256; notification = empty }

unfoldable pub has_frag : ℕ → Bool
has_frag frame_ctrl = check frame_ctrl 4

add_data : Reader → ℕ → ℕ → List ℕ → Reader
add_data r pkt_type frame_ctrl bytes = record r {
  notification = record {
    type_value = pkt_type;
    pkg_type = pkt_type % 4;
    sub_type = pkt_type % 256 / 4;
    frame_ctrl = frame_ctrl;
    data' = r.notification.data' ++ bytes;
  };
}

last : List ℕ → ℕ
last [] = 0
last (x ∷ []) = x
last (x ∷ y ∷ ys) = last (y ∷ ys)

before_last : List ℕ → ℕ
unfolding last
before_last [] = 0
before_last (x ∷ []) = 0
before_last (x ∷ y ∷ []) = x
before_last (x ∷ y ∷ z ∷ zs) = before_last (y ∷ z ∷ zs)

-- `respChecksum1` and `respChecksum2` against the checksum of the header's last two bytes and the data.
checksum_matches : List ℕ → ℕ → ℕ → List ℕ → Bool
unfolding last before_last
checksum_matches response sequence data_len bytes =
    let crc = calc_crc (calc_crc 0 (sequence ∷ data_len ∷ [])) bytes in
    last response == crc / 256 % 256 && before_last response == crc % 256

-- `response[0]`, …, `response[3]` and the rest of the response.
parse_frame : Reader → ℕ → ℕ → ℕ → ℕ → List ℕ → Reader × Parsed
unfolding add_data checksum_matches
parse_frame r pkt_type frame_ctrl sequence data_len rest =
    let bytes = take data_len rest in
    if check frame_ctrl 1
      && not (
          checksum_matches (pkt_type ∷ frame_ctrl ∷ sequence ∷ data_len ∷ rest) sequence data_len
            bytes)
    then (record r { notification = empty }, bad_checksum)
    else if has_frag frame_ctrl
    then (add_data r pkt_type frame_ctrl (drop 2 bytes), fragment)
    else (add_data r pkt_type frame_ctrl bytes, complete)

unfoldable pub parse_notification : Reader → Option (List ℕ) → Reader × Parsed
unfolding parse_frame
parse_notification r none = (r, no_response)
parse_notification r (some (pkt_type ∷ frame_ctrl ∷ sequence ∷ data_len ∷ rest)) =
    if sequence == r.read_sequence % 256
    then (r, duplicate)
    else parse_frame (accept_sequence r sequence) pkt_type frame_ctrl sequence data_len rest
parse_notification r (some _) = (r, too_short)
