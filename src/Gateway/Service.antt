-- ===== src/Gateway/Service.antt =====
-- gateway/: what the HTTP service makes of a request, around the runs of one gateway process.
pub mod Paging
pub mod Listing
pub mod Starting
pub mod Stream
pub mod Routes
pub mod Access
use kkode.Prelude.{ℕ, Option, none, some, Result, ok, err}
use kkode.Strings.{Text}

-- An answer of `writeError`: its status and its code. The message is left out.
pub record Refusal : Type 0 where
  pub status : ℕ
  pub code : Text

abbrev pub refuse : ℕ → Text → Refusal
refuse status code = record { status = status; code = code }

-- A test whose error is answered by 400 and a code.
abbrev pub or_refuse {ℓ} : {E : Type 0} {A : Type ℓ} → Text → Result E A → Result Refusal A
or_refuse code (ok a) = ok a
or_refuse code (err e) = err (refuse 400 code)

abbrev pub or_missing {ℓ} : {A : Type ℓ} → Text → Option A → Result Refusal A
or_missing code (some a) = ok a
or_missing code none = err (refuse 400 code)
