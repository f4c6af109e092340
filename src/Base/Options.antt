-- ===== src/Base/Options.antt =====
-- A test of an optional value that has both branches as arguments.
use mathlib.Core.Option.{Option, none, some}

-- `if x is None: … else: …`
unfoldable pub maybe {ℓ κ} : {A : Type ℓ} {B : Type κ} → Option A → B → (A → B) → B
maybe none absent present = absent
maybe (some a) absent present = present a
