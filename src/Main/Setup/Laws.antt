-- ===== src/Main/Setup/Laws.antt =====
-- When the manager runs, and what has been set up by then.
use reactivejob_operator.Prelude.{
  String, ◌≡◌, refl, subst, ap, inl, inr, ◌⊎◌, Option, none, some, [], arith, sym,
}
use reactivejob_operator.Prelude.Int.{ℤ}
use reactivejob_operator.Main.Address.{AddressError, parse_address}
use reactivejob_operator.Main.Setup.{
  Flags, Platform, exited, returned, main, with_address, setup_controller, setup_webhook, Succeeds,
  full_setup,
}

module _ (platform : Platform) (flags : Flags) where
  with_address-ends :
      (host : String) (port : ℤ)
      → ((Succeeds platform (full_setup platform flags host port))
          × (with_address platform flags (host, (port, none)) []
              ≡ (returned, full_setup platform flags host port)))
        ⊎ ((¬ Succeeds platform (full_setup platform flags host port))
            × ((with_address platform flags (host, (port, none)) []).0 ≡ exited 1))
  unfolding Succeeds setup_controller setup_webhook
  with_address-ends host port = ground arith

  abbrev pub IsAddress : String → ℤ → Type 0
  IsAddress host port = parse_address flags.webhook_addr ≡ (host, (port, none))

  with_address-total :
      (parsed : String × (ℤ × Option AddressError))
      → ((host : String) × (port : ℤ) × (parsed ≡ (host, (port, none)))
          × Succeeds platform (full_setup platform flags host port)
          × (with_address platform flags parsed []
              ≡ (returned, full_setup platform flags host port)))
        ⊎ (((host : String) (port : ℤ)
              → parsed ≡ (host, (port, none))
              → ¬ Succeeds platform (full_setup platform flags host port))
            × ((with_address platform flags parsed []).0 ≡ exited 1))
  with_address-total (host, (port, some e)) = inr (λ h p q all. cc (ap (λ r. r.1.1) q), refl)
  with_address-total (host, (port, none)) = elim (with_address-ends host port) [
    | inl (all, e) ↦ inl (host, port, refl, all, e)
    | inr (fails, e) ↦ inr (
      λ h p q all.
          fails (subst (λ r. Succeeds platform (full_setup platform flags r.0 r.1.0)) (sym q) all),
      e,
    )
  ]

  -- The process ends with code 0 exactly if the webhook address can be read and every action of the
  -- setup succeeds, the run of the manager included; then these are all that was done, in the
  -- order of `full_setup`. In every other case it exits with code 1.
  pub main-total :
      ((host : String) × (port : ℤ) × IsAddress host port
        × Succeeds platform (full_setup platform flags host port)
        × (main platform flags [] ≡ (returned, full_setup platform flags host port)))
      ⊎ (((host : String) (port : ℤ)
            → IsAddress host port
            → ¬ Succeeds platform (full_setup platform flags host port))
          × ((main platform flags []).0 ≡ exited 1))
  unfolding main
  main-total = with_address-total (parse_address flags.webhook_addr)
