-- ===== src/Judge/Languages.antt =====
-- apps/judge/sahujudge/languages.py
use Prim.Native.String.{String}
use sahucodex.Prelude.{ℕ, ◌*◌, List, [], ◌∷◌, ◌++◌, Option, none, some, if◌then◌else◌, or_raise}
use sahucodex.Prelude.Texts.{Text, codes, eq_text}
use sahucodex.Judge.Failures.{Fallible, unsupported_language}

abbrev pub workdir : Text
workdir = codes "/work"

-- `time_multiplier` is a float that is a multiple of one half in every entry of the table:
-- `time_halves` is twice its value.
pub record LanguageSpec : Type 0 where
  pub key : Text
  pub source_name : Text
  pub run : List Text
  pub compile : Option (List Text)
  pub time_halves : ℕ
  pub compile_time_ms : ℕ
  pub min_container_memory_mb : ℕ
  pub compile_nofile_limit : ℕ
  pub run_nofile_limit : ℕ
  pub run_fsize_bytes : Option ℕ
  pub env : List (Text × Text)

-- The defaults of the dataclass.
abbrev pub spec_defaults : Text → Text → List Text → LanguageSpec
spec_defaults key source_name run = record {
  key = key;
  source_name = source_name;
  run = run;
  compile = none;
  time_halves = 2;
  compile_time_ms = 20_000;
  min_container_memory_mb = 128;
  compile_nofile_limit = 128;
  run_nofile_limit = 128;
  run_fsize_bytes = none;
  env = [];
}

unfoldable pub source_path : LanguageSpec → Text
source_path spec = workdir ++ codes "/" ++ spec.source_name

abbrev pub in_work : String → Text
in_work name = workdir ++ codes "/" ++ codes name

abbrev pub python : LanguageSpec
python =
    record (spec_defaults (codes "python") (codes "main.py")
      (codes "python3" ∷ codes "-B" ∷ in_work "main.py" ∷ [])) {
        time_halves = 6;
        env =
            (codes "PYTHONHASHSEED", codes "0")
            ∷ (codes "PYTHONIOENCODING", codes "utf-8")
            ∷ (codes "PYTHONDONTWRITEBYTECODE", codes "1")
            ∷ [];
      }

abbrev pub javascript : LanguageSpec
javascript =
    record (spec_defaults (codes "javascript") (codes "main.js")
      (codes "node" ∷ in_work "main.js" ∷ [])) { time_halves = 4; min_container_memory_mb = 256 }

abbrev pub cpp : LanguageSpec
cpp = record (spec_defaults (codes "cpp") (codes "main.cpp") (in_work "main" ∷ [])) {
  compile = some (
      codes "g++"
      ∷ codes "-std=c++17"
      ∷ codes "-O2"
      ∷ codes "-pipe"
      ∷ codes "-fmax-errors=20"
      ∷ codes "-o"
      ∷ in_work "main"
      ∷ in_work "main.cpp"
      ∷ []);
  min_container_memory_mb = 768;
}

abbrev pub c : LanguageSpec
c = record (spec_defaults (codes "c") (codes "main.c") (in_work "main" ∷ [])) {
  compile = some (
      codes "gcc"
      ∷ codes "-std=c17"
      ∷ codes "-O2"
      ∷ codes "-pipe"
      ∷ codes "-fmax-errors=20"
      ∷ codes "-o"
      ∷ in_work "main"
      ∷ in_work "main.c"
      ∷ []);
  min_container_memory_mb = 768;
}

abbrev pub java : LanguageSpec
java =
    record (spec_defaults (codes "java") (codes "Main.java") (
      codes "java"
      ∷ codes "-XX:+UseSerialGC"
      ∷ codes "-Xshare:auto"
      ∷ codes "-cp"
      ∷ workdir
      ∷ codes "Main"
      ∷ [])) {
        compile = some (codes "javac" ∷ codes "-d" ∷ workdir ∷ in_work "Main.java" ∷ []);
        time_halves = 4;
        compile_time_ms = 30_000;
        min_container_memory_mb = 384;
      }

abbrev pub csharp : LanguageSpec
csharp =
    record (spec_defaults (codes "csharp") (codes "Program.cs")
      (codes "dotnet" ∷ in_work "out/sjx.dll" ∷ [])) {
        compile = some (
            codes "dotnet"
            ∷ codes "build"
            ∷ codes "-c"
            ∷ codes "Release"
            ∷ codes "--no-restore"
            ∷ codes "-o"
            ∷ in_work "out"
            ∷ workdir
            ∷ []);
        time_halves = 3;
        compile_time_ms = 30_000;
        min_container_memory_mb = 512;
        compile_nofile_limit = 1024;
        run_nofile_limit = 1024;
        run_fsize_bytes = some (64 * 1024 * 1024);
        env =
            (codes "DOTNET_CLI_TELEMETRY_OPTOUT", codes "1")
            ∷ (codes "DOTNET_NOLOGO", codes "1")
            ∷ (codes "DOTNET_SKIP_FIRST_TIME_EXPERIENCE", codes "1")
            ∷ (codes "DOTNET_MULTILEVEL_LOOKUP", codes "0")
            ∷ (codes "NUGET_XMLDOC_MODE", codes "skip")
            ∷ [];
      }

abbrev pub go : LanguageSpec
go = record (spec_defaults (codes "go") (codes "main.go") (in_work "main" ∷ [])) {
  compile =
      some (codes "go" ∷ codes "build" ∷ codes "-o" ∷ in_work "main" ∷ in_work "main.go" ∷ []);
  compile_time_ms = 30_000;
  min_container_memory_mb = 384;
  env = (codes "GOCACHE", codes "/tmp/sjx-gocache") ∷ (codes "GOFLAGS", codes "-mod=mod") ∷ [];
}

abbrev pub rust : LanguageSpec
rust = record (spec_defaults (codes "rust") (codes "main.rs") (in_work "main" ∷ [])) {
  compile = some (
      codes "rustc"
      ∷ codes "-O"
      ∷ codes "--edition"
      ∷ codes "2021"
      ∷ codes "-o"
      ∷ in_work "main"
      ∷ in_work "main.rs"
      ∷ []);
  compile_time_ms = 30_000;
  min_container_memory_mb = 512;
}

abbrev pub typescript : LanguageSpec
typescript =
    record (spec_defaults (codes "typescript") (codes "main.ts") (
      codes "node"
      ∷ codes "--no-warnings"
      ∷ codes "--experimental-strip-types"
      ∷ in_work "main.ts"
      ∷ [])) { time_halves = 4; min_container_memory_mb = 256 }

abbrev pub php : LanguageSpec
php =
    record (spec_defaults (codes "php") (codes "main.php")
      (codes "php" ∷ in_work "main.php" ∷ [])) { time_halves = 6; min_container_memory_mb = 192 }

-- `LANGUAGES`: the dict's values, each under its own key.
abbrev pub languages : List LanguageSpec
languages = python ∷ javascript ∷ cpp ∷ c ∷ java ∷ csharp ∷ go ∷ rust ∷ typescript ∷ php ∷ []

unfoldable pub find_language : List LanguageSpec → Text → Option LanguageSpec
find_language [] key = none
find_language (spec ∷ rest) key = if eq_text spec.key key then some spec else find_language rest key

unfoldable pub get_language : Text → Fallible LanguageSpec
unfolding find_language
get_language key = or_raise (find_language languages key) (unsupported_language key)
