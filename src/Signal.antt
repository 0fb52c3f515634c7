-- ===== src/Signal.antt =====
-- nstl/nstl/signal_barrier_common.cpp and the SigVal of nstl/nstl/signal_barrier.hpp. The numbers of
-- the signals are those of Linux.
pub mod Names
pub mod Wait
pub mod Handlers
use nstl.Prelude.{
  ℕ, zero, suc, ◌+◌, ◌-◌, ◌*◌, ◌/◌, ◌%◌, ◌^◌, ◌≤◌, ◌<◌, min, ◌≡◌, refl, sym, ap, ◌∙◌, ◌≢◌, ◌↔◌, ◌⊎◌,
  inl, inr, Bool, true, false, ◌&&◌, ◌||◌, not, Option, none, some, List, [], ◌∷◌, ◌++◌, map,
  append-nil, append_assoc, arith, ltb, leb, ◌==◌, if◌then◌else◌, ltb→lt, lt→ltb, leb→le, le→leb,
  ==_iff, tests, Bool-cases, Option-cases, all_below, all_below_sound, length, get_elem?, take,
  drop, replicate, length-append, take-append-drop, length-take, length-drop, length-replicate,
  take-append, drop-append, take-append_of_le, take-append_of_ge, append-replicate, take_of_ge,
  drop_of_ge, length-map, All, All-append, Exception, nstl_exception, length_error, bad_alloc,
  runtime_error, out_of_range, invalid_argument, Result, ok, err, ◌>>=◌, ◌>>◌, throw_if, >>=-eq-ok,
  Result-cases, get_elem?_of_lt, nil_of_length, find, c_string, codes, drop_next, same_text,
  same_text_iff, text-cases, same_text_self, same_text_of_ne,
}

pub data SigVal : Type 0 where
  unknown sig_int sig_term sig_quit sig_logoff sig_shutdown : SigVal

-- An int that a signal's number can be; a negative one is a `minus`.
pub data Number : Type 0 where
  number : (n : ℕ) → Number
  minus : (n : ℕ) → Number

-- SIGINT, SIGQUIT and SIGTERM.
abbrev pub sigint : ℕ
sigint = 2

abbrev pub sigquit : ℕ
sigquit = 3

abbrev pub sigterm : ℕ
sigterm = 15

unfoldable pub from_signal_conv : ℕ → Result SigVal
from_signal_conv value =
    if value == sigint
    then ok sig_int
    else if value == sigterm
    then ok sig_term
    else if value == sigquit
    then ok sig_quit
    else err nstl_exception

-- The enumerators' values.
unfoldable pub to_signal_conv : SigVal → Number
to_signal_conv unknown = minus 1
to_signal_conv sig_int = number 2
to_signal_conv sig_term = number 15
to_signal_conv sig_quit = number 3
to_signal_conv sig_logoff = number 12
to_signal_conv sig_shutdown = number 13

-- The stream operator.
unfoldable pub signal_name : SigVal → List ℕ
signal_name sig_int = codes "SIGINT"
signal_name sig_term = codes "SIGTERM"
signal_name sig_quit = codes "SIGQUIT"
signal_name sig_logoff = codes "SIGLOGOFF"
signal_name sig_shutdown = codes "SIGSHUTDOWN"
signal_name unknown = codes "Unknown"
