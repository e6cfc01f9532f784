-- ===== src/Tests/Process.antt =====
-- The theorems on main.go at a concrete address and platform.
use reactivejob_operator.Prelude.{String, ◌≡◌, refl, ◌⊎◌, true, false, none, [], arith, has}
use reactivejob_operator.Prelude.Int.{ℤ, pos}
use reactivejob_operator.Strconv.{format_int}
use reactivejob_operator.Main.Address.{parse_address}
use reactivejob_operator.Main.Address.RoundTrip.{join_host_port, parse_address-join}
use reactivejob_operator.Main.Setup.{
  Platform, Action, default_flags, main, Succeeds, full_setup, returned, exited,
}
use reactivejob_operator.Main.Setup.Laws.{IsAddress, main-total}

parse_address-join_example :
    parse_address (join_host_port "::1" (format_int (pos 9443))) ≡ ("::1", (pos 9443, none))
unfolding has
parse_address-join_example = parse_address-join "::1" (pos 9443) refl refl (omega arith)

-- A platform on which no readiness check can be added.
abbrev no_checks : Platform
no_checks h (Action.add_readyz_check name) = false
no_checks h a = true

main-total_example :
    ((host : String) × (port : ℤ) × IsAddress no_checks default_flags host port
      × Succeeds no_checks (full_setup no_checks default_flags host port)
      × (main no_checks default_flags []
          ≡ (returned, full_setup no_checks default_flags host port)))
    ⊎ (((host : String) (port : ℤ)
          → IsAddress no_checks default_flags host port
          → ¬ Succeeds no_checks (full_setup no_checks default_flags host port))
        × ((main no_checks default_flags []).0 ≡ exited 1))
main-total_example = main-total no_checks default_flags
