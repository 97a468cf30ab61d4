-- ===== src/Scripts/Tests.antt =====
-- Instances of the theorems on the short scripts, and runs of them.
use ve_root.Base.{
  ℕ, ◌≡◌, ◌⊎◌, refl, true, false, ◌&&◌, ◌||◌, Option, none, some, List, [], ◌∷◌, ◌++◌, length, ◌==◌,
  ==_iff, ltb, leb, arith, if◌then◌else◌, pos, negsuc, Text, text_eq, codes,
}
use ve_root.Scripts.{returns}
use ve_root.Scripts.Harden.{Kconf, header, line, hardenconfig}
use ve_root.Scripts.Harden.Reports.{
  findings_of_rows, findings_of_nodes, is_any_in, hardenconfig_lem,
}
use ve_root.Scripts.Lint
use ve_root.Scripts.Lint.{Output, System}
use ve_root.Scripts.Lint.Search.{is_name, splitlines, find_defines, find_config, is_assignment}
use ve_root.Scripts.Lint.Lists.{filter}
use ve_root.Scripts.Lint.Lists.Batches.{concat, IsEven}
use ve_root.Scripts.Lint.Checks.{check_missing_config_prefix, define_grep, undefined}
use ve_root.Scripts.Lint.Checks.Commands.{
  IsRunning, west_list, output, defines, Does, everywhere, batch_commands,
  check_missing_config_prefix_lem,
}
use ve_root.Scripts.Version.{Versions}
use ve_root.Scripts.Version.Order.{IsOrder, Says, version_parse_lem}

-- A version is its length, and the empty text is none.
abbrev sample_parse : Text → Option ℕ
sample_parse [] = none
sample_parse (c ∷ t) = some (length t)

abbrev sample_versions : Versions ℕ
sample_versions = record {
  parse = sample_parse;
  eq = λ a b. a == b;
  lt = λ a b. ltb a b;
  gt = λ a b. ltb b a;
  ge = λ a b. leb b a;
}

sample-IsOrder : IsOrder sample_versions
sample-IsOrder = record {
  eq_sym = λ a b. ground (arith, ==_iff a b, ==_iff b a);
  gt_swap = λ a b. refl;
  lt_irrefl = λ a b h. ground (arith, ==_iff a b);
  total = λ a b h. ground (arith, ==_iff a b);
  ge_not = λ a b. ground arith;
}

version_parse_lem_example :
    (Says sample_versions (codes "1" ∷ codes "12" ∷ []) (codes "eq") (pos 0)
      × Says sample_versions (codes "12" ∷ codes "1" ∷ []) (codes "eq") (pos 0)
      × Says sample_versions (codes "--gteq" ∷ codes "1" ∷ codes "12" ∷ []) (codes "y") (pos 0))
    ⊎ (Says sample_versions (codes "1" ∷ codes "12" ∷ []) (codes "gt") (pos 1)
        × Says sample_versions (codes "12" ∷ codes "1" ∷ []) (codes "lt") (negsuc 0)
        × Says sample_versions (codes "--gteq" ∷ codes "1" ∷ codes "12" ∷ []) (codes "y") (pos 0))
    ⊎ (Says sample_versions (codes "1" ∷ codes "12" ∷ []) (codes "lt") (negsuc 0)
        × Says sample_versions (codes "12" ∷ codes "1" ∷ []) (codes "gt") (pos 1)
        × Says sample_versions (codes "--gteq" ∷ codes "1" ∷ codes "12" ∷ []) (codes "n") (pos 1))
version_parse_lem_example =
    version_parse_lem sample_versions (codes "1") (codes "12") 0 1 sample-IsOrder refl refl

abbrev sample_kconf : Kconf ℕ
sample_kconf = record {
  same = λ a b. a == b;
  name = λ s. if s == 3 then codes "FOO" else codes "MARK";
  str_value = λ s. codes "y";
  visibility = λ s. 2;
  syms = λ t.
      if text_eq t (codes "EXPERIMENTAL")
      then some 0
      else if text_eq t (codes "DEPRECATED")
      then some 1
      else if text_eq t (codes "NOT_SECURE")
      then some 2
      else if text_eq t (codes "FOO")
      then some 3
      else none;
  node_iter = record { item = 3; selects = record { target = 1; cond = none } ∷ [] } ∷ [];
}

abbrev sample_rows : List (List Text)
sample_rows = (codes "FOO" ∷ codes "n" ∷ []) ∷ (codes "GONE" ∷ codes "n" ∷ []) ∷ []

hardenconfig_lem_example :
    hardenconfig (some sample_kconf) (some (codes "zephyr")) (λ base. some sample_rows)
    ≡ returns
        (header
          ++ ((findings_of_rows sample_kconf sample_rows
                ++ findings_of_nodes sample_kconf
                    (is_any_in sample_kconf 0 1 2)
                    sample_kconf.node_iter)
              ++ ((10 ∷ []) ∷ [])))
        tt
hardenconfig_lem_example =
    hardenconfig_lem sample_kconf {e = 0} {d = 1} {n = 2} refl refl refl (codes "zephyr")
      (λ base. some sample_rows) sample_rows refl

-- A symbol that is listed and selects a deprecated one is reported twice.
reported_twice :
    hardenconfig (some sample_kconf) (some (codes "zephyr")) (λ base. some sample_rows)
    ≡ returns
        (header
          ++ (line (codes "FOO") (codes "y") (codes "n")
              ++ (line (codes "FOO") (codes "y") (codes "n") ++ ((10 ∷ []) ∷ []))))
        tt
unfolding hardenconfig
reported_twice = refl

abbrev sample_popen : List Text → Text → Output
sample_popen cmd cwd = record {
  status = if text_eq cwd (codes "/") then pos 0 else pos 1;
  stdout = if text_eq cwd (codes "/") then codes "/zephyr\n/hal" else codes "a.h:#define FOO 1";
  stderr = some (if text_eq cwd (codes "/") then [] else codes "slow");
}

abbrev sample_system : System
sample_system = record {
  popen = λ cmd cwd. some (sample_popen cmd cwd);
  top_dir = codes "/";
  kconfig_modules = codes "/tmp/Kconfig.modules";
  is_word = λ c. leb b'a' c && leb c b'z' || is_name c;
  is_space = λ c. c == b' ' || leb 9 c && leb c 13;
}

abbrev sample_running : IsRunning sample_system
sample_running cmd cwd = (sample_popen cmd cwd, _, refl, refl)

abbrev sample_sym : Text → Lint.Sym
sample_sym name = record {
  name = name;
  nodes = [];
  selected = false;
  implied = false;
  defaults = true;
  selects = false;
  implies = false;
  in_choice = false;
}

abbrev lint_kconf : Lint.Kconf
lint_kconf = record {
  unique_defined_syms = sample_sym (codes "FOO") ∷ sample_sym (codes "BAR") ∷ [];
  node_iter = [];
}

abbrev sample_paths : List Text
sample_paths =
    splitlines (output sample_system sample_running west_list sample_system.top_dir).stdout

check_missing_config_prefix_lem_example :
    (batches : List (List Lint.Sym)) × Does
      (check_missing_config_prefix sample_system lint_kconf)
      ((west_list, sample_system.top_dir)
        ∷ (everywhere define_grep sample_paths ++ batch_commands sample_paths batches))
      tt
    × (concat batches
        ≡ filter
            (undefined (defines sample_system sample_running sample_paths))
            lint_kconf.unique_defined_syms)
    × IsEven 200 batches
check_missing_config_prefix_lem_example =
    check_missing_config_prefix_lem sample_system sample_running lint_kconf refl

abbrev three_names : List Text
three_names = codes "A" ∷ codes "B" ∷ codes "C" ∷ []

-- The symbol `FOO` is defined as a macro.
left_over :
    filter
      (undefined
        (find_defines sample_system.is_word sample_system.is_space (codes "a.h:#define FOO 1")))
      lint_kconf.unique_defined_syms
    ≡ sample_sym (codes "BAR") ∷ []
unfolding find_defines undefined
left_over = refl

-- A line that sets a symbol is no reference to it.
references :
    find_config sample_system.is_word sample_system.is_space (codes "if (CONFIG_FOO && XCONFIG_B)")
    ≡ codes "FOO" ∷ []
unfolding find_config
references = refl

setting : is_assignment sample_system.is_word sample_system.is_space (codes "# CONFIG_FOO=y") ≡ true
unfolding is_assignment
setting = refl

lines : splitlines (codes "a\r\nb\n\nc") ≡ codes "a" ∷ codes "b" ∷ [] ∷ codes "c" ∷ []
unfolding splitlines
lines = refl
