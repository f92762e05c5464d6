-- ===== src/Log/Device.antt =====
-- Log.h and Log.cpp: the stream that is logged to, and `xcstream`, which collects a message, logs it
-- and throws it.
pub mod Thrown
use libcpp_core.Base.{
  ℕ, Bool, true, false, if◌then◌else◌, Option, none, some, List, [], ◌∷◌, ◌++◌, Bytes,
}
use libcpp_core.Text.{decimal}

-- The standard streams, and one that was made by `new`.
pub data Device : Type 0 where
  clog cerr cout : Device
  made : ℕ → Device

-- `Log_device_`, the streams that were deleted, and what was written to which stream.
pub record Log : Type 0 where
  pub device : Device
  pub deleted : List ℕ
  pub written : List (Device × Bytes)

-- `get_device()`
unfoldable pub get_device : Log → Device
get_device l = l.device

-- `set_device(os)`, which returns the one before.
unfoldable pub set_device : Device → Log → Device × Log
set_device os l = (l.device, record l { device = os })

-- `close_device(os)`
unfoldable pub close_device : Device → Log → Log
close_device (made n) l = record l { deleted = n ∷ l.deleted }
close_device os l = l

-- `Log_cleanup()`
unfoldable pub log_cleanup : Log → Log
log_cleanup l = record (close_device l.device l) { device = clog }

-- The object: `pf_`, `err_` where `none` is -1, and the text that was put into it.
pub record XcStream : Type 0 where
  pub pf_ : Bytes
  pub err_ : Option ℕ
  pub str : Bytes

-- `xcstream(pf, err)`
unfoldable pub xcstream : Bytes → Option ℕ → XcStream
xcstream pf err = record { pf_ = pf; err_ = err; str = [] }

-- `operator<<(v)`, by the text of the value.
unfoldable pub put : Bytes → XcStream → XcStream
put v x = record x { str = x.str ++ v }

-- `operator<<(mf)` for another manipulator than `endl`, by what it does to the text.
unfoldable pub manipulate : (Bytes → Bytes) → XcStream → XcStream
manipulate mf x = record x { str = mf x.str }

pub data Exception : Type 0 where
  runtime_error : Bytes → Exception
  system_error : ℕ → Bytes → Exception

-- `err_` as it is printed.
unfoldable pub print_err : Option ℕ → Bytes
print_err none = b'-' ∷ b'1' ∷ []
print_err (some e) = decimal e

-- `": errno = "`
abbrev pub errno_is : Bytes
errno_is = b':' ∷ b' ' ∷ b'e' ∷ b'r' ∷ b'r' ∷ b'n' ∷ b'o' ∷ b' ' ∷ b'=' ∷ b' ' ∷ []

-- The line in the log; `endl` ends it.
unfoldable pub log_text : XcStream → Bytes
log_text x = x.pf_ ++ (errno_is ++ (print_err x.err_ ++ (b',' ∷ b' ' ∷ x.str ++ (b'\n' ∷ []))))

unfoldable pub exception_of : XcStream → Exception
exception_of x = elim x.err_ [ none ↦ runtime_error x.str | some e ↦ system_error e x.str ]

-- `trace_enabled(fn)`, `info_enabled(fn)`, `warning_enabled(fn)` and `error_enabled(fn)`
unfoldable pub trace_enabled : Bytes → Bool
trace_enabled fn = true

unfoldable pub info_enabled : Bytes → Bool
info_enabled fn = true

unfoldable pub warning_enabled : Bytes → Bool
warning_enabled fn = true

unfoldable pub error_enabled : Bytes → Bool
error_enabled fn = true

unfoldable pub write_line : Bytes → Log → Log
write_line text l = record l { written = l.written ++ ((l.device, text) ∷ []) }

-- `operator<<(endl)`
unfoldable pub finish : XcStream → Log → Exception × Log
finish x l = (exception_of x, if error_enabled x.pf_ then write_line (log_text x) l else l)

-- `logtrc`, `loginf`, `logwrn` and `logerr` with a message, by their test.
unfoldable pub log_message : (Bytes → Bool) → Bytes → Bytes → Log → Log
log_message enabled pf msg l = if enabled pf then write_line (pf ++ (b':' ∷ b' ' ∷ msg)) l else l

-- `logexc << v1 << ... << endl`, and `logsxc` with `errno`.
unfoldable pub put_all : List Bytes → XcStream → XcStream
put_all [] x = x
put_all (v ∷ vs) x = put_all vs (put v x)
