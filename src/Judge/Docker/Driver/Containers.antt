-- ===== src/Judge/Docker/Driver/Containers.antt =====
-- The driver (apps/judge/sahujudge/docker_sandbox.py) behind the engine (engine.py): which containers there
-- are before and after.
use sahucodex.Prelude.{
  ℕ, ◌≡◌, ◌⊎◌, refl, ap, ◌∙◌, inl, inr, Bool, true, false, ◌||◌, not, List, [], ◌∷◌, Option, none,
  some, Bool-cases, Option-cases, Outcome-cases, arith, returned, raised, any_of, keep_if, ltb,
  length,
}
use sahucodex.Prelude.Texts.{Text, codes, eq_text, eq_text_refl}
use sahucodex.Judge.Failures.{Failure, Fallible}
use sahucodex.Judge.Checkers.{Checker}
use sahucodex.Judge.Languages.{LanguageSpec}
use sahucodex.Judge.Sandbox.{RunLimits, Sandbox}
use sahucodex.Utf8.{encode}
use sahucodex.Judge.Process.{CommandResult}
use sahucodex.Judge.Engine.{JudgeTest, JudgeConfig}
use sahucodex.Judge.Engine.Running.{judge_tests}
use sahucodex.Judge.Engine.Brackets.{IsBracketed, judge_tests-IsSame}
use sahucodex.Judge.Docker.{
  DockerSandboxConfig, build_run_argv, build_exec_argv, container_memory_mb,
}
use sahucodex.Judge.Docker.Driver.{
  DockerSession, Driver, is_zero_code, command, supervisor, put_source, run_in, compile_in, remove,
  container_name, start_failure, start, open_session, compile_session, run_session, close_session,
  docker_sandbox, docker_timeout_ms,
}

abbrev pub has_name : Text → List Text → Bool
has_name name names = any_of (eq_text name) names

abbrev pub without : Text → List Text → List Text
without name names = keep_if (λ other. not (eq_text name other)) names

without_absent :
    (name : Text) (names : List Text) → has_name name names ≡ false → without name names ≡ names
without_absent name [] h = refl
without_absent name (other ∷ names) h = elim (Bool-cases (eq_text name other)) [
  | inl same ↦ absurd (ground (arith, h))
  | inr differs ↦ rw differs (ap (◌∷◌ other) (without_absent name names (ground (arith, h))))
]

without_first :
    (name : Text) (names : List Text)
    → has_name name names ≡ false
    → without name (name ∷ names) ≡ names
without_first name names h = rw (eq_text_refl name) (without_absent name names h)

module _ {S : Type 0}
    (run_command : List Text
      → Option (List ℕ)
      → ℕ
      → ℕ
      → List (Text × Text)
      → S
      → Fallible CommandResult × S)
    (config : DockerSandboxConfig) (environ : List (Text × Text)) (tempdir : Text) (uuid : ℕ → Text)
    (clock : S → ℕ) (containers : S → List Text) where
  abbrev removing : Text → S → Fallible CommandResult × S
  removing name =
      command run_command config environ tempdir uuid clock
        (config.docker_bin ∷ codes "rm" ∷ codes "--force" ∷ name ∷ []) none docker_timeout_ms 65_536

  -- What Docker documents of the three commands: `run` with a status of zero has created the container
  -- of that name and otherwise may have, `exec` creates and removes none, `rm --force` that comes
  -- back has removed the one that it names. And that it does come back: a removal that raises or is too
  -- slow is left to the self-destruct timer of the container.
  pub record IsDocker : Type 0 where
    pub starts :
        (name : Text) (memory_mb created_at timeout_ms max_output : ℕ) (s : S)
        → let s' =
            (command run_command config environ tempdir uuid clock
              (build_run_argv config name memory_mb created_at)
              none
              timeout_ms
              max_output
              s).1 in
          (containers s' ≡ containers s) ⊎ (containers s' ≡ name ∷ containers s)
    pub started :
        (name : Text) (memory_mb created_at timeout_ms max_output : ℕ) (s : S)
        (result : CommandResult)
        → (command run_command config environ tempdir uuid clock
            (build_run_argv config name memory_mb created_at)
            none
            timeout_ms
            max_output
            s).0
          ≡ returned result
        → is_zero_code result.returncode ≡ true
        → containers
            (command run_command config environ tempdir uuid clock
              (build_run_argv config name memory_mb created_at)
              none
              timeout_ms
              max_output
              s).1
          ≡ name ∷ containers s
    pub executes :
        (name : Text) (args : List Text) (stdin : Option (List ℕ)) (timeout_ms max_output : ℕ)
        (s : S)
        → containers
            (command run_command config environ tempdir uuid clock
              (build_exec_argv config name args)
              stdin
              timeout_ms
              max_output
              s).1
          ≡ containers s
    pub removes :
        (name : Text) (s : S) (result : CommandResult)
        → (removing name s).0 ≡ returned result
        → containers (removing name s).1 ≡ without name (containers s)
    pub comes_back :
        (name : Text) (s : S) → (result : CommandResult) × ((removing name s).0 ≡ returned result)

  abbrev pub IsFresh : Driver S → Type 0
  IsFresh d =
      has_name (container_name run_command config environ tempdir uuid clock d.draws)
        (containers d.host)
      ≡ false

  -- Where the next name is not in use: the containers are those that there were, or the one of the
  -- session besides.
  abbrev IsSame : Driver S → Driver S → Type 0
  IsSame d d' = IsFresh d → containers d'.host ≡ containers d.host

  abbrev IsOpen : Driver S → Driver S → Type 0
  IsOpen d d' =
      IsFresh d
      → (session : DockerSession) × (d'.session ≡ some session)
        × (has_name session.name (containers d.host) ≡ false)
        × (containers d'.host ≡ session.name ∷ containers d.host)

  abbrev pub driven : Sandbox (Driver S)
  driven = docker_sandbox run_command config environ tempdir uuid clock

  module _ (docker : IsDocker) where
    supervisor-containers :
        (name : Text) (args : List Text) (stdin : List ℕ) (timeout_ms max_output : ℕ) (s : S)
        → containers
            (supervisor run_command config environ tempdir uuid clock name args stdin timeout_ms
              max_output s).1
          ≡ containers s
    unfolding supervisor
    supervisor-containers name args stdin timeout_ms max_output s =
        docker.executes name args (some stdin) timeout_ms max_output s

    put_source-containers :
        (name : Text) (language : LanguageSpec) (source : List ℕ) (s : S)
        → containers
            (put_source run_command config environ tempdir uuid clock name language source s).1
          ≡ containers s
    unfolding put_source
    put_source-containers name language source s =
        elim (Bool-cases (ltb config.max_source_bytes (length source))) [
          | inl big ↦ rw (big, put_source) refl
          | inr small ↦ rw (small, put_source) (supervisor-containers name _ source _ _ s)
        ]

    run_in-containers :
        (session : DockerSession) (argv : List Text) (stdin : List ℕ) (limits : RunLimits)
        (fsize_bytes : ℕ) (s : S)
        → containers
            (run_in run_command config environ tempdir uuid clock session argv stdin limits
              fsize_bytes s).1
          ≡ containers s
    unfolding run_in
    run_in-containers session argv stdin limits fsize_bytes s =
        supervisor-containers session.name _ stdin _ _ s

    compile_in-containers :
        (session : DockerSession) (s : S)
        → containers (compile_in run_command config environ tempdir uuid clock session s).1
          ≡ containers s
    unfolding compile_in
    compile_in-containers session s = elim (Option-cases session.language.compile) [
      | inl nothing ↦ rw (nothing, compile_in) refl
      | inr (argv, given) ↦ rw (given, compile_in) (run_in-containers session _ [] _ _ s)
    ]

    start_failure-none :
        (result : CommandResult)
        → start_failure run_command config environ tempdir uuid clock result ≡ none
        → is_zero_code result.returncode ≡ true
    unfolding start_failure
    start_failure-none result h =
        elim (Bool-cases (not (is_zero_code result.returncode) || result.timed_out)) [
          | inl bad ↦ absurd (ground (arith, rw (bad, start_failure) at h))
          | inr good ↦ ground (arith, good)
        ]

    -- A start that returns has made its container; one that raises may have.
    start-containers :
        (name : Text) (language : LanguageSpec) (source : Text) (memory_mb : ℕ) (s : S)
        → let (outcome, s') =
            start run_command config environ tempdir uuid clock name language source memory_mb s in
          ((outcome ≡ returned tt) × (containers s' ≡ name ∷ containers s))
          ⊎ ((e : Failure) × (outcome ≡ raised e)
              × ((containers s' ≡ containers s) ⊎ (containers s' ≡ name ∷ containers s)))
    unfolding start
    start-containers name language source memory_mb s =
        let argv = build_run_argv config name memory_mb (clock s) in
        let made =
          command run_command config environ tempdir uuid clock argv none 30_000 65_536 s in
        let put =
          put_source run_command config environ tempdir uuid clock name language (encode source)
            made.1 in
        let kept = put_source-containers name language (encode source) made.1 in
        let maybe = docker.starts name memory_mb (clock s) 30_000 65_536 s in
        elim (Outcome-cases made.0) [
          | inl (e, failed) ↦ rw (failed, start) (inr (e, refl, maybe))
          | inr (result, ran) ↦
              elim (Option-cases
                (start_failure run_command config environ tempdir uuid clock result)) [
                  | inr (e, refused) ↦ rw (ran, start) (rw (refused, start) (inr (e, refl, maybe)))
                  | inl up ↦
                      let there =
                        docker.started name memory_mb (clock s) 30_000 65_536 s result ran
                          (start_failure-none result up) in
                      elim (Outcome-cases put.0) [
                        | inl (e, failed) ↦
                            rw (ran, start) (rw (up, start) (inr (e, failed, inr (kept ∙ there))))
                        | inr (u, done) ↦
                            rw (ran, start) (rw (up, start) (inl (done, kept ∙ there)))
                      ]
                ]
        ]

    removes_it :
        (name : Text) (s : S)
        → containers (remove run_command config environ tempdir uuid clock name s)
          ≡ without name (containers s)
    unfolding remove
    removes_it name s =
        let (result, back) = docker.comes_back name s in docker.removes name s result back

    removed_again :
        (name : Text) (s s' : S)
        → has_name name (containers s) ≡ false
        → (containers s' ≡ containers s) ⊎ (containers s' ≡ name ∷ containers s)
        → containers (remove run_command config environ tempdir uuid clock name s') ≡ containers s
    removed_again name s s' fresh (inl never) =
        removes_it name s' ∙ rw never (without_absent name (containers s) fresh)
    removed_again name s s' fresh (inr there) =
        removes_it name s' ∙ rw there (without_first name (containers s) fresh)

    open_session-IsOpen :
        (language : LanguageSpec) (source : Text) (memory_limit_mb : ℕ) (d : Driver S)
        → (driven.open_session language source memory_limit_mb d).0 ≡ returned tt
        → IsOpen d (driven.open_session language source memory_limit_mb d).1
    unfolding open_session
    open_session-IsOpen language source memory_limit_mb d h fresh =
        let name = container_name run_command config environ tempdir uuid clock d.draws in
        let memory_mb = container_memory_mb config language memory_limit_mb in
        elim (start-containers name language source memory_mb d.host) [
          | inl (up, there) ↦
              rw (up, open_session)
                (
                  record { name = name; language = language; container_memory = memory_mb },
                  refl,
                  fresh,
                  there,
                )
          | inr (e, failed, maybe) ↦ absurd (ground (arith, rw (failed, open_session) at h))
        ]

    open_session-IsSame :
        (language : LanguageSpec) (source : Text) (memory_limit_mb : ℕ) (d : Driver S) (e : Failure)
        → (driven.open_session language source memory_limit_mb d).0 ≡ raised e
        → IsSame d (driven.open_session language source memory_limit_mb d).1
    unfolding open_session
    open_session-IsSame language source memory_limit_mb d e h fresh =
        let name = container_name run_command config environ tempdir uuid clock d.draws in
        let memory_mb = container_memory_mb config language memory_limit_mb in
        elim (start-containers name language source memory_mb d.host) [
          | inl (up, there) ↦ absurd (ground (arith, rw (up, open_session) at h))
          | inr (e', failed, maybe) ↦
              rw (failed, open_session) (removed_again name d.host _ fresh maybe)
        ]

    compile_session-IsOpen : (d d' : Driver S) → IsOpen d d' → IsOpen d (driven.compile d').1
    unfolding compile_session
    compile_session-IsOpen d d' h fresh =
        let (session, within, new, there) = h fresh in
        rw (within, compile_session)
          (session, within, new, compile_in-containers session d'.host ∙ there)

    run_session-IsOpen :
        (stdin : Text) (limits : RunLimits) (d d' : Driver S)
        → IsOpen d d'
        → IsOpen d (driven.run stdin limits d').1
    unfolding run_session
    run_session-IsOpen stdin limits d d' h fresh =
        let (session, within, new, there) = h fresh in
        rw (within, run_session)
          (session, within, new, run_in-containers session _ _ limits _ d'.host ∙ there)

    close_session-IsSame : (d d' : Driver S) → IsOpen d d' → IsSame d (driven.close_session d')
    unfolding close_session
    close_session-IsSame d d' h fresh =
        let (session, within, new, there) = h fresh in
        rw (within, close_session) (removed_again session.name d.host d'.host new (inr there))

    docker-IsBracketed : IsBracketed driven IsOpen IsSame
    docker-IsBracketed = record {
      idles = λ d fresh. refl;
      opens = open_session-IsOpen;
      refuses = open_session-IsSame;
      compiles = compile_session-IsOpen;
      runs = run_session-IsOpen;
      closes = close_session-IsSame;
    }

    -- However the engine's judging through the Docker driver ends, the containers at the daemon are
    -- those that there were before, provided that the docker commands do what Docker documents, that
    -- every removal comes back in time and that the next name drawn is not in use.
    pub judge_tests_leaves_no_container :
        (language : LanguageSpec) (source : Text) (tests : List JudgeTest)
        (time_limit_ms memory_limit_mb : ℕ) (checker : Checker) (judge_config : JudgeConfig)
        (stop capture : Bool) (d : Driver S)
        → IsFresh d
        → containers
            (judge_tests driven language source tests time_limit_ms memory_limit_mb checker
              judge_config stop capture d).1.host
          ≡ containers d.host
    judge_tests_leaves_no_container = judge_tests-IsSame driven IsOpen IsSame docker-IsBracketed
