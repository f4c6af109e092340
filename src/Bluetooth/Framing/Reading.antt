-- ===== src/Bluetooth/Framing/Reading.antt =====
-- What `parseNotification` makes of a frame that it sees twice.
use py_mammotion.Base.{ℕ, ◌+◌, ◌%◌, ◌<◌, ◌≡◌, some, List, ◌∷◌, nat_keys, eqb_iff, arith}
use py_mammotion.Bluetooth.Framing.{
  Reader, Parsed, duplicate, parse_notification, accept_sequence, parse_frame,
}

-- A frame of at least four bytes whose sequence number is a byte, when it is parsed again right
-- after, is reported as a duplicate and changes nothing.
pub parse_notification-twice :
    (r : Reader) (pkt_type frame_ctrl sequence data_len : ℕ) (rest : List ℕ)
    → sequence < 256
    → let frame = pkt_type ∷ frame_ctrl ∷ sequence ∷ data_len ∷ rest in
      let once = (parse_notification r (some frame)).0 in
      ◌≡◌ {A = Reader × Parsed} (parse_notification once (some frame)) (once, duplicate)
unfolding parse_notification accept_sequence parse_frame
parse_notification-twice r pkt_type frame_ctrl sequence data_len rest l = ground (
  arith,
  eqb_iff sequence (r.read_sequence % 256),
  eqb_iff ((r.read_sequence + 1) % 256) sequence,
)
