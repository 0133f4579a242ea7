-- ===== src/Error.antt =====
-- src/error.rs: the errors of the crate, and results that carry them.

use tonggeret.Base.{◌++◌, codes}
use tonggeret.Text.{Str}

pub data Error : Type 0 where
  already_initialized not_initialized channel_closed : Error
  invalid_config storage prometheus io : Str → Error

-- `Display`, by the `error` attributes
unfoldable pub display : Error → Str
display already_initialized = codes "tonggeret already initialized"
display not_initialized = codes "tonggeret not initialized; call tonggeret::init() first"
display (invalid_config s) = codes "invalid config: " ++ s
display (storage s) = codes "storage error: " ++ s
display (prometheus s) = codes "prometheus error: " ++ s
display (io s) = codes "io error: " ++ s
display channel_closed = codes "metrics pipeline closed"

-- `From<std::io::Error>`, by the text of the error
unfoldable pub from_io : Str → Error
from_io text = io text

-- `crate::Result<T>`
pub data Result {ℓ} (A : Type ℓ) : Type ℓ where
  ok : A → Result A
  err : Error → Result A

-- `first?;` and what follows
infixl 5 ◌>>◌
abbrev pub ◌>>◌ {ℓ} : {B : Type ℓ} → Result (Unit {0}) → Result B → Result B
err e >> next = err e
ok done >> next = next
