-- ===== src/Tests/BluetoothTests.antt =====
-- Three bytes to a reader that has seen nothing, and frames that come twice.
use py_mammotion.Base.{ℕ, ◌≡◌, true, false, List, [], ◌∷◌, refl, arith}
use py_mammotion.Bluetooth.Framing.{
  PostOptions, Reader, empty, post_contains_data, parse_notification, check, get_frame_ctrl_value,
  next_chunk, get_post_bytes, remaining_after, has_frag, accept_sequence, take,
}
use py_mammotion.Bluetooth.Framing.RoundTrip.{Delivers, post_contains_data-Delivers, receive}

-- `getTypeValue(1, 19)`, with the flags as the class sets them.
abbrev custom_data : PostOptions
custom_data = record { encrypt = false; checksum = false; require_ack = false; type_of = 77 }

-- A counter at -1.
abbrev new_reader : Reader
new_reader = record { read_sequence = 255; notification = empty }

abbrev three : List ℕ
three = 8 ∷ 200 ∷ 1 ∷ []

three_received :
    (receive new_reader
      (post_contains_data custom_data (λ s. true) 255 three).frames).0.notification.data'
    ≡ three
unfolding receive post_contains_data parse_notification next_chunk get_post_bytes remaining_after
    check get_frame_ctrl_value has_frag accept_sequence take
three_received = refl

post_contains_data-Delivers_example :
    Delivers new_reader three (post_contains_data custom_data (λ s. true) 255 three)
post_contains_data-Delivers_example =
    post_contains_data-Delivers custom_data (λ s. true) three 255 new_reader refl refl (omega arith)
      (omega arith) (omega arith) refl
