-- ===== src/Examples/Processes.antt =====
-- The laws of processes and of stream buffers at concrete inputs.
use libcpp_core.Base.{
  ◌≡◌, refl, ◌++◌, ◌∷◌, [], List, Bytes, Bool, true, false, some, replicate, take,
}
use libcpp_core.Examples.Masks.{codes}
use libcpp_core.Log.{ok}
use libcpp_core.Process.{pid, Process, error, running, exited, eintr, wait}
use libcpp_core.Process.Settled.{
  Method, kill_method, wait_method, terminated_method, call_methods, wait-settles,
}
use libcpp_core.StreamBuf.{o_stream_buf, outside, sputn, sgetn}
use libcpp_core.StreamBuf.Input.{concat, sgetn-take}
use libcpp_core.StreamBuf.Output.{sputn-outside}

abbrev child : Process
child = record { pid_ = pid 77; waited_ = false; xstat_ = 0 }

abbrev later : List Method
later = kill_method 9 ∷ wait_method (error 10 ∷ []) ∷ terminated_method running ∷ []

wait-settles_example :
    (p' : Process) × (wait (replicate 2 (error eintr) ++ (exited 3 ∷ [])) child ≡ some (ok 3, p'))
    × (call_methods later p' ≡ ([], p'))
    × (wait [] p' ≡ some (ok 3, p'))
wait-settles_example = wait-settles 2 3 [] [] child later refl

abbrev takes : List Bytes → Bytes → Bool
takes before block = true

sputn-outside_example : sputn takes (codes "abc" ++ (b'd' ∷ [])) (o_stream_buf 3) ≡ outside
sputn-outside_example = sputn-outside takes 3 b'd' (codes "abc") refl

sgetn-take_example :
    sgetn 4 (record { got = codes "a"; source = codes "bc" ∷ codes "def" ∷ [] })
    ≡ take 4 (codes "a" ++ concat (codes "bc" ∷ codes "def" ∷ []))
sgetn-take_example =
    sgetn-take 4 (codes "a") (codes "bc" ∷ codes "def" ∷ []) (λ e. cc, (λ e. cc, tt))
