-- ===== src/Kconfig/Tests.antt =====
-- Instances of the theorems on scripts/kconfig/kconfig.py.
use ve_root.Base.{ℕ, Bool, true, false, none, some, List, [], ◌∷◌, ◌≡◌, refl}
use ve_root.Kconfig.{
  writes_list, Text, Assigned, tri, text, Sym, Choice, Kconfiglib, returns, exits, Event,
  kconfig_warnings,
}
use ve_root.Kconfig.Checks.{
  check_no_promptless_assign, check_assigned_sym_values, assigned_promptless,
  check_assigned_choice_values, check_not_secure,
}
use ve_root.Kconfig.Checks.Promptless.{Refuses, check_no_promptless_assign-Refuses}
use ve_root.Kconfig.Checks.Taken.{Reports, check_assigned_sym_values-Reports}
use ve_root.Kconfig.Merge.{Args, main, write_kconfig_filenames}
use ve_root.Kconfig.Merge.Files.{IsIncreasing, is_member, write_kconfig_filenames_lem}
use ve_root.Kconfig.Merge.Writes.{Writes, main-Writes}

abbrev sym_of : ℕ → Assigned → Text → List Bool → Sym ℕ
sym_of n a t ps = record {
  name = n ∷ [];
  in_choice = false;
  assigned = a;
  str_value = t;
  tri_value = 0;
  direct_dep = 0;
  rev_dep = 2;
  prompts = ps;
}

-- It was set to y, and got n.
abbrev lost_sym : Sym ℕ
lost_sym = sym_of b'L' (tri (some 2)) (b'n' ∷ []) (false ∷ (true ∷ []))

-- It has no prompt, and was not assigned.
abbrev plain_sym : Sym ℕ
plain_sym = sym_of b'P' (text none) (b'1' ∷ []) (false ∷ [])

abbrev lost_choice : Choice ℕ
lost_choice = record { user_selection = some (lost_sym, false); selection = none }

-- An expression is its value, and a configuration is the list of its warnings. Writing gives one
-- more warning.
abbrev sample_lib : Kconfiglib ℕ (List Text)
sample_lib = record {
  open_kconfig = λ base file. some [];
  warn_assign_undef = λ k. k;
  no_warn_assign_override = λ k. k;
  no_warn_assign_redun = λ k. k;
  load_config = λ k file replace. some (b'l' ∷ file, k);
  write_config = λ k file. some (b'w' ∷ file, (b's' ∷ []) ∷ []);
  write_autoconf = λ k file. some (b'h' ∷ file, k);
  unique_defined_syms = λ k. lost_sym ∷ (plain_sym ∷ []);
  unique_choices = λ k. lost_choice ∷ [];
  syms = λ k flag. some plain_sym;
  warnings = λ k. k;
  open_list = λ k path. some tt;
  kconfig_filenames = λ k. (b'b' ∷ []) ∷ ((b'a' ∷ []) ∷ ((b'b' ∷ []) ∷ []));
  split_and = λ e. e ∷ [];
  split_or = λ e. e ∷ [];
  expr_value = λ e. e;
  expr_str = λ e. b'e' ∷ [];
  is_tuple = λ e. true;
  name_of = λ e. some (b'S' ∷ []);
  is_n = λ e. false;
  set_more_than_once = λ w. true;
  real_path = λ k p. p;
  devnull = b'0' ∷ [];
}

abbrev args_of : Bool → Args
args_of forced = record {
  handwritten_input_configs = true;
  forced_input_configs = forced;
  zephyr_base = none;
  kconfig_file = b'K' ∷ [];
  config_out = b'c' ∷ [];
  header_out = b'h' ∷ [];
  kconfig_list_out = b'f' ∷ [];
  first_config = b'1' ∷ [];
  configs_in = (b'2' ∷ []) ∷ [];
}

main-Writes_example : Writes sample_lib (args_of true) (main sample_lib (args_of true))
main-Writes_example = main-Writes sample_lib (args_of true)

check_no_promptless_assign-Refuses_example :
    Refuses sample_lib (lost_sym ∷ (plain_sym ∷ [])) (check_no_promptless_assign sample_lib [])
check_no_promptless_assign-Refuses_example = check_no_promptless_assign-Refuses sample_lib []

check_assigned_sym_values-Reports_example :
    Reports sample_lib (lost_sym ∷ (plain_sym ∷ [])) (check_assigned_sym_values sample_lib [])
check_assigned_sym_values-Reports_example = check_assigned_sym_values-Reports sample_lib []

write_kconfig_filenames_lem_example :
    (files : List Text) × (write_kconfig_filenames sample_lib [] (b'f' ∷ [])
      ≡ returns (writes_list (b'f' ∷ []) files ∷ []) tt)
    × IsIncreasing files
    × ((r : Text)
        → is_member r files ≡ is_member r ((b'b' ∷ []) ∷ ((b'a' ∷ []) ∷ ((b'b' ∷ []) ∷ []))))
write_kconfig_filenames_lem_example = write_kconfig_filenames_lem sample_lib [] (b'f' ∷ [])

-- Unless the configuration is forced, the warning is an error.
main_refuses : (es : List (Event ℕ)) × (main sample_lib (args_of false) ≡ exits es kconfig_warnings)
unfolding main check_no_promptless_assign assigned_promptless check_assigned_sym_values
    check_assigned_choice_values check_not_secure
main_refuses = (_, refl)

main_finishes : (es : List (Event ℕ)) × (main sample_lib (args_of true) ≡ returns es tt)
unfolding main check_no_promptless_assign assigned_promptless check_assigned_sym_values
    check_assigned_choice_values check_not_secure write_kconfig_filenames
main_finishes = (_, refl)
