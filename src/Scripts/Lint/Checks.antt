-- ===== src/Scripts/Lint/Checks.antt =====
-- The checks of scripts/kconfig/lint.py, and its `main()`.
pub mod Commands
use ve_root.Base.{
  times, pad_right, centre, ℕ, zero, suc, ◌+◌, ◌-◌, Bool, true, false, ◌&&◌, ◌||◌, not, Option,
  none, some, List, [], ◌∷◌, ◌++◌, map, length, take, drop, if◌then◌else◌, ℤ, pos, Text, text_eq,
  codes,
}
use ve_root.Functions.Numbers.{str}
use ve_root.Scripts.{Run, returns, raises, ◌>>=◌, emit, pure}
use ve_root.Scripts.Lint.{Place, Sym, Node, Kconf, Output, System, Event, prints, runs, Fault, run}
use ve_root.Scripts.Lint.Search.{splitlines, find_config, is_assignment, find_defines}
use ve_root.Scripts.Lint.Lists.{
  split_list, joined, any_of, all_of, filter, contains, for_each, gather,
}

-- `print()`
abbrev line : Text → Event
line t = prints (t ++ 10 ∷ [])

print_header : Text → Run Event Fault (Unit {0})
print_header s = emit (line (s ++ 10 ∷ times (length s) b'='))

place_text : Place → Text
unfolding str
place_text place = place.filename ++ b':' ∷ str (pos place.linenr)

name_and_locs : Sym → Text
unfolding place_text
name_and_locs sym = pad_right 40 sym.name ++ b' ' ∷ joined (codes ", ") (map place_text sym.nodes)

pub data Check : Type 0 where
  always_n : Check
  unused : Check
  pointless_menuconfigs : Check
  defconfig_only_definition : Check
  missing_config_prefix : Check

-- The symbols that a check lists, in the order of their definition.
list_syms : (Sym → Bool) → List Sym → Run Event Fault (Unit {0})
unfolding name_and_locs for_each
list_syms p syms = for_each (λ sym. emit (line (name_and_locs sym))) (filter p syms)

has_prompt : Sym → Bool
unfolding any_of
has_prompt sym = any_of (λ (place : Place). place.prompt) sym.nodes

pub is_always_n : Sym → Bool
unfolding has_prompt
is_always_n sym = not (has_prompt sym) && (not (sym.selected || sym.implied) && not sym.defaults)

pub is_unused : List Text → Sym → Bool
unfolding any_of
is_unused referenced sym =
    not (sym.selects || sym.implies)
    && (not sym.in_choice && not (any_of (text_eq sym.name) referenced))

is_defconfig_only : Sym → Bool
unfolding all_of contains
is_defconfig_only sym =
    all_of (λ (place : Place). contains (codes "defconfig") place.filename) sym.nodes

menuconfig_text : Node → List Event
unfolding place_text
menuconfig_text node =
    if node.is_menuconfig && not node.list
    then (elim node.symbol [
      | none ↦ []
      | some name ↦ line (pad_right 40 name ++ b' ' ∷ place_text node.place) ∷ []
    ])
    else []

referenced_in_kconfig : List Node → List Text
referenced_in_kconfig [] = []
referenced_in_kconfig (node ∷ nodes) = node.referenced ++ referenced_in_kconfig nodes

config_grep : List Text
config_grep =
    codes "git"
    ∷ codes "grep"
    ∷ codes "-h"
    ∷ codes "-I"
    ∷ codes "--extended-regexp"
    ∷ codes "\\bCONFIG_[A-Z0-9_]+\\b"
    ∷ []

pub define_grep : List Text
define_grep =
    codes "git"
    ∷ codes "grep"
    ∷ codes "--extended-regexp"
    ∷ codes "#\\s*define\\s+([A-Z0-9_]+)\\b"
    ∷ []

-- The search for the symbols of a batch.
pub batch_grep : List Sym → List Text
batch_grep batch =
    codes "git"
    ∷ codes "grep"
    ∷ codes "--line-number"
    ∷ codes "-I"
    ∷ codes "--perl-regexp"
    ∷ (codes "(?:#\\s*if(?:n?def)\\s+|\\bdefined\\s*\\(\\s*|IS_ENABLED\\(\\s*)(?:"
        ++ (joined (codes "|") (map (λ (sym : Sym). sym.name) batch) ++ codes ")\\b"))
    ∷ []

unfoldable pub undefined : List Text → Sym → Bool
unfolding any_of
undefined defined sym = not (any_of (text_eq sym.name) defined)

module _ (system : System) where
  pub module_paths : Run Event Fault (List Text)
  unfolding run splitlines
  module_paths =
      run system (codes "west" ∷ codes "list" ∷ codes "-f{abspath}" ∷ []) system.top_dir true
      >>= λ out. pure (splitlines out)

  names_in_line : Text → List Text
  unfolding is_assignment find_config
  names_in_line l =
      if is_assignment system.is_word system.is_space l
      then []
      else find_config system.is_word system.is_space l

  names_in : List Text → List Text
  unfolding names_in_line
  names_in [] = []
  names_in (l ∷ ls) = names_in_line l ++ names_in ls

  referenced_in_module : Text → Run Event Fault (List Text)
  unfolding run splitlines names_in config_grep
  referenced_in_module modpath =
      run system config_grep modpath true >>= λ out. pure (names_in (splitlines out))

  referenced_outside_kconfig : Run Event Fault (List Text)
  unfolding module_paths gather referenced_in_module
  referenced_outside_kconfig = module_paths >>= λ paths. gather referenced_in_module paths

  defined_in_module : Text → Run Event Fault (List Text)
  unfolding run find_defines define_grep
  defined_in_module modpath = run system define_grep modpath false >>= λ out.
      pure (find_defines system.is_word system.is_space out)

  search_batch : List Text → List Sym → Run Event Fault (Unit {0})
  unfolding run batch_grep for_each
  search_batch modpaths batch =
      for_each (λ modpath. run system (batch_grep batch) modpath false >>= λ out. emit (prints out))
        modpaths

  module _ (kconf : Kconf) where
    check_always_n : Run Event Fault (Unit {0})
    unfolding print_header list_syms is_always_n
    check_always_n = print_header (codes "Symbols that can't be anything but n/empty") >>= λ _.
        list_syms is_always_n kconf.unique_defined_syms

    check_unused : Run Event Fault (Unit {0})
    unfolding print_header list_syms is_unused referenced_in_kconfig referenced_outside_kconfig
    check_unused = print_header (codes "Symbols that look unused") >>= λ _.
        referenced_outside_kconfig >>= λ outside.
        list_syms (is_unused (referenced_in_kconfig kconf.node_iter ++ outside))
          kconf.unique_defined_syms

    check_pointless_menuconfigs : Run Event Fault (Unit {0})
    unfolding print_header for_each menuconfig_text
    check_pointless_menuconfigs =
        print_header (codes "menuconfig symbols with empty menus") >>= λ _.
        for_each (λ node. returns (menuconfig_text node) tt) kconf.node_iter

    check_defconfig_only_definition : Run Event Fault (Unit {0})
    unfolding print_header list_syms is_defconfig_only
    check_defconfig_only_definition =
        print_header (codes "Symbols only defined in Kconfig.defconfig files") >>= λ _.
        list_syms is_defconfig_only kconf.unique_defined_syms

    unfoldable pub check_missing_config_prefix : Run Event Fault (Unit {0})
    unfolding print_header module_paths gather defined_in_module for_each search_batch split_list
        undefined
    check_missing_config_prefix =
        print_header (codes "Symbol references that might be missing a CONFIG_ prefix") >>= λ _.
        module_paths >>= λ modpaths. gather defined_in_module modpaths >>= λ defined.
        for_each (search_batch modpaths)
          (split_list (filter (undefined defined) kconf.unique_defined_syms) 200)

    run_check : Check → Run Event Fault (Unit {0})
    unfolding check_always_n check_unused check_pointless_menuconfigs
        check_defconfig_only_definition check_missing_config_prefix
    run_check always_n = check_always_n
    run_check unused = check_unused
    run_check pointless_menuconfigs = check_pointless_menuconfigs
    run_check defconfig_only_definition = check_defconfig_only_definition
    run_check missing_config_prefix = check_missing_config_prefix

    more_checks : List Check → Run Event Fault (Unit {0})
    unfolding run_check
    more_checks [] = pure tt
    more_checks (c ∷ cs) = emit (line []) >>= λ _. run_check c >>= λ _. more_checks cs

    run_checks : List Check → Run Event Fault (Unit {0})
    unfolding run_check more_checks
    run_checks [] = pure tt
    run_checks (c ∷ cs) = run_check c >>= λ _. more_checks cs

  -- `init_kconfig()`, up to the parsing of the Kconfig files, and then `main()`. `checks` are those
  -- that the arguments name.
  modules_file_dir : Run Event Fault (Unit {0})
  unfolding run
  modules_file_dir =
      run system
        (codes "scripts/zephyr_module.py" ∷ codes "--kconfig-out" ∷ system.kconfig_modules ∷ [])
        system.top_dir true
      >>= λ _. pure tt

  unfoldable pub main : Kconf → List Check → Run Event Fault (Unit {0})
  unfolding modules_file_dir run_checks
  main kconf [] = modules_file_dir >>= λ _. run_checks kconf (
      always_n ∷ unused ∷ pointless_menuconfigs ∷ defconfig_only_definition ∷ missing_config_prefix
      ∷ [])
  main kconf (c ∷ cs) = modules_file_dir >>= λ _. run_checks kconf (c ∷ cs)
