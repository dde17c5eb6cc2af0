-- ===== src/Judge/Engine/Signals.antt =====
-- The names of `signal.Signals` on Linux.
use Prim.Native.String.{String}
use sahucodex.Prelude.{ℕ, List, [], ◌∷◌, Option, none, some, ◌==◌, if◌then◌else◌}
use sahucodex.Prelude.Int.{ℤ, pos, negsuc}
use sahucodex.Prelude.Texts.{Text, codes}

signals : List (ℕ × String)
signals =
    (1, "SIGHUP")
    ∷ (2, "SIGINT")
    ∷ (3, "SIGQUIT")
    ∷ (4, "SIGILL")
    ∷ (5, "SIGTRAP")
    ∷ (6, "SIGABRT")
    ∷ (7, "SIGBUS")
    ∷ (8, "SIGFPE")
    ∷ (9, "SIGKILL")
    ∷ (10, "SIGUSR1")
    ∷ (11, "SIGSEGV")
    ∷ (12, "SIGUSR2")
    ∷ (13, "SIGPIPE")
    ∷ (14, "SIGALRM")
    ∷ (15, "SIGTERM")
    ∷ (16, "SIGSTKFLT")
    ∷ (17, "SIGCHLD")
    ∷ (18, "SIGCONT")
    ∷ (19, "SIGSTOP")
    ∷ (20, "SIGTSTP")
    ∷ (21, "SIGTTIN")
    ∷ (22, "SIGTTOU")
    ∷ (23, "SIGURG")
    ∷ (24, "SIGXCPU")
    ∷ (25, "SIGXFSZ")
    ∷ (26, "SIGVTALRM")
    ∷ (27, "SIGPROF")
    ∷ (28, "SIGWINCH")
    ∷ (29, "SIGIO")
    ∷ (30, "SIGPWR")
    ∷ (31, "SIGSYS")
    ∷ (34, "SIGRTMIN")
    ∷ (64, "SIGRTMAX")
    ∷ []

find_name : ℕ → List (ℕ × String) → Option Text
find_name n [] = none
find_name n ((m, name) ∷ rest) = if n == m then some (codes name) else find_name n rest

-- `Signals(n).name`, `none` where that raises ValueError.
unfoldable pub signal_name : ℤ → Option Text
unfolding signals find_name
signal_name (pos n) = find_name n signals
signal_name (negsuc n) = none
