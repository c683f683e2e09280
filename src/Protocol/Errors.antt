-- ===== src/Protocol/Errors.antt =====
-- internal/protocol/errors.go.
use talka.Prelude.{Option, none, some, List, []}
use talka.Prelude.Bytes.{Bytes}
use talka.Protocol.{ErrorCode, ErrorMessage}

-- A message is a literal text, or a format with its arguments, which `fmt.Sprintf` is to fill in.
pub data ErrorText : Type 0 where
  literal : Bytes → ErrorText
  sprintf : Bytes → List Bytes → ErrorText

pub record Error : Type 0 where
  pub err_code : ErrorCode
  pub message : ErrorText

abbrev pub new_error : ErrorCode → Bytes → List Bytes → Error
new_error code format args = record { err_code = code; message = sprintf format args }

-- `ErrorCodeOf`: `none` is the nil error. Of the errors that are no `CodedError` see `uncoded`.
pub data AnyError : Type 0 where
  coded : Error → AnyError
  uncoded : AnyError

error_code_of : Option AnyError → ErrorCode
error_code_of none = []
error_code_of (some (coded e)) = e.err_code
error_code_of (some uncoded) = []

pub as_error : ErrorMessage → Error
as_error m = record { err_code = m.code; message = literal m.message }
