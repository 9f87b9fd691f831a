-- ===== src/Shellopt/Main.antt =====
-- What shellopt changes.
use uefi_utilities.Base.{
  ℕ, ◌≡◌, ◌⊎◌, inl, inr, refl, Bool, true, false, List, [], ◌∷◌, if◌then◌else◌,
}
use uefi_utilities.Uefi.{Text, Firmware, success, invalid_parameter}
use uefi_utilities.Shellopt.{
  Ending, ended, undefined, Built, built, unknown_option, past_argv, overflow, shell_opt,
  set_shell_opt, on_built, help_options, set_options, is_one_of, option_loop, shellopt_main,
}

module _ (fw : Firmware) (lower : Text → Text) where
  open fw use {World, set_variable}

  -- The firmware is as it was, or the variable ShellOpt has been set once.
  abbrev pub OnlyShellOpt : World → Ending fw lower → Type 0
  OnlyShellOpt w (ended status w' usage) =
      (w' ≡ w) ⊎ ((bytes : List ℕ) × (w' ≡ (set_variable (shell_opt fw lower) bytes w).1))
  OnlyShellOpt w undefined = Unit

  set_shell_opt-OnlyShellOpt :
      (bytes : List ℕ) (w : World) → OnlyShellOpt w (set_shell_opt fw lower bytes w)
  unfolding set_shell_opt
  set_shell_opt-OnlyShellOpt bytes w = inr (bytes, refl)

  on_built-OnlyShellOpt : (b : Built) (w : World) → OnlyShellOpt w (on_built fw lower b w)
  unfolding on_built
  on_built-OnlyShellOpt (built text) w = set_shell_opt-OnlyShellOpt _ w
  on_built-OnlyShellOpt (unknown_option arg) w = inl refl
  on_built-OnlyShellOpt past_argv w = tt
  on_built-OnlyShellOpt overflow w = tt

  OnlyShellOpt-if :
      (b : Bool) (w : World) (x y : Ending fw lower)
      → OnlyShellOpt w x
      → OnlyShellOpt w y
      → OnlyShellOpt w (if b then x else y)
  OnlyShellOpt-if true w x y hx hy = hx
  OnlyShellOpt-if false w x y hx hy = hy

  -- Whatever the arguments, where its behaviour is defined shellopt changes the firmware by at most
  -- one call of SetVariable, on the variable ShellOpt.
  pub shellopt_main-OnlyShellOpt :
      (argv : List Text) (w : World) → OnlyShellOpt w (shellopt_main fw lower argv w)
  unfolding shellopt_main
  shellopt_main-OnlyShellOpt [] w = inl refl
  shellopt_main-OnlyShellOpt (name ∷ []) w = inl refl
  shellopt_main-OnlyShellOpt (name ∷ arg ∷ []) w =
      OnlyShellOpt-if (is_one_of fw lower (help_options fw lower) arg) w (ended success w true)
        (set_shell_opt fw lower [] w) (inl refl) (set_shell_opt-OnlyShellOpt [] w)
  shellopt_main-OnlyShellOpt (name ∷ arg ∷ option ∷ rest) w =
      OnlyShellOpt-if (is_one_of fw lower (set_options fw lower) arg) w
        (on_built fw lower (option_loop fw lower (option ∷ rest) []) w)
        (ended invalid_parameter w true)
        (on_built-OnlyShellOpt (option_loop fw lower (option ∷ rest) []) w) (inl refl)
