-- ===== src/Log/Device/Thrown.antt =====
-- What `logexc` and `logsxc` throw and log, and which streams are deleted.
use libcpp_core.Base.{ℕ, ◌≡◌, refl, sym, ap, ◌∙◌, none, some, List, [], ◌∷◌, ◌++◌, Bytes}
use libcpp_core.Log.Device.{
  Device, made, Log, set_device, close_device, XcStream, xcstream, put, runtime_error, system_error,
  print_err, errno_is, log_text, exception_of, write_line, error_enabled, finish, put_all,
}
use mathlib.Core.List.{append_assoc, append-nil}

unfoldable pub joined : List Bytes → Bytes
joined [] = []
joined (v ∷ vs) = v ++ joined vs

put_all-joined :
    (vs : List Bytes) (x : XcStream) → put_all vs x ≡ record x { str = x.str ++ joined vs }
unfolding put_all put joined
put_all-joined [] x = ap (λ t. record x { str = t }) (sym (append-nil x.str))
put_all-joined (v ∷ vs) x =
    put_all-joined vs (record x { str = x.str ++ v })
    ∙ ap (λ t. record x { str = t }) (append_assoc x.str v (joined vs))

-- A stream that is set for a while, and closed then.
unfoldable pub for_a_while : Device → (Log → Log) → Log → Log
for_a_while os use_it l =
    let (old, l1) = set_device os l in
    let (os', l2) = set_device old (use_it l1) in close_device os' l2

-- `logexc` throws a std::runtime_error whose message is all that was put into it, in its order, and
-- `logsxc` a std::system_error with that message and `errno`; both write one line that ends in the
-- message to the stream that was set last, and change nothing else. Where that stream was set by
-- `set_device`, is set back and closed, the log writes to the one before again.
pub finish-put_all :
    (pf : Bytes) (vs : List Bytes) (e n : ℕ) (l : Log)
    → ((finish (put_all vs (xcstream pf none)) l).0 ≡ runtime_error (joined vs))
      × ((finish (put_all vs (xcstream pf (some e))) l).0 ≡ system_error e (joined vs))
      × ((finish (put_all vs (xcstream pf (some e))) l).1 ≡ record l {
        written =
            l.written
            ++ ((
              l.device,
              pf ++ (errno_is ++ (print_err (some e) ++ (b',' ∷ b' ' ∷ joined vs ++ (b'\n' ∷ [])))),
            )
                ∷ []);
      })
      × (for_a_while (made n) (λ m. (finish (put_all vs (xcstream pf none)) m).1) l ≡ record l {
        deleted = n ∷ l.deleted;
        written =
            l.written
            ++ ((
              made n,
              pf ++ (errno_is ++ (print_err none ++ (b',' ∷ b' ' ∷ joined vs ++ (b'\n' ∷ [])))),
            )
                ∷ []);
      })
unfolding finish exception_of log_text write_line error_enabled xcstream for_a_while set_device
    close_device
finish-put_all pf vs e n l = (
  rw (put_all-joined vs (xcstream pf none)) refl,
  rw (put_all-joined vs (xcstream pf (some e))) refl,
  rw (put_all-joined vs (xcstream pf (some e))) refl,
  rw (put_all-joined vs (xcstream pf none)) refl,
)
