-- ===== src/Signals/Tests.antt =====
-- The theorems on signals at concrete signals.
use memtoy.Base.{◌≡◌, refl, some, true, ◌++◌, text, tolower, text_eq, strcasecmp_eq, strncasecmp_eq}
use memtoy.Signals.Listing.{signal_list}
use memtoy.Signals.Rows.{names_of, known, all_fit, all_short, signal_list-rows}
use memtoy.Signals.{sig_names, sigusr1, sigsegv, sig_name, signum_from_name, find_signal}
use memtoy.Signals.Laws.{signum_from_name-sig_name}

usr1 : signum_from_name (text "sigusr1") ≡ some sigusr1
unfolding signum_from_name find_signal strcasecmp_eq strncasecmp_eq tolower text_eq
usr1 = refl

signum_from_name-sig_name_example :
    (signum_from_name (sig_name sigsegv) ≡ some sigsegv)
    × (signum_from_name (text "SIG" ++ sig_name sigsegv) ≡ some sigsegv)
signum_from_name-sig_name_example = signum_from_name-sig_name sigsegv refl

names_short : all_short (known sig_names) ≡ true
unfolding text_eq
names_short = refl

signal_list-rows_example :
    (names_of (signal_list sig_names) ≡ known sig_names)
    × (all_fit 0 (signal_list sig_names) ≡ true)
signal_list-rows_example = signal_list-rows sig_names names_short
