-- ===== src/Transport/Stdio/Started.antt =====
-- What a stream that `StdioTransport::connect` returns talks to.
use text.Mathlib.Text.{◌==◌}
use text.Mathlib.TextEquality.{eq_iff}
use zeroio.Common.{
  String, ◌≡◌, refl, sym, ap, ◌∙◌, subst, Bool, true, false, Option, none, some, List, [], ◌∷◌, ok,
  map_err-eq-ok, err-ne-ok, ok-injective, >>=-eq-ok, Bool-cases, inl, inr, if◌then◌else◌,
}
use zeroio.Protocol.Errors.{lit}
use zeroio.Transport.Errors.{TransportError}
use zeroio.Transport.Words.{strip_prefix, split_whitespace}
use zeroio.Transport.Stdio.{
  StdioConfig, Processes, StdioTransportStream, own_command, from_words, from_rest, command_to_run,
  or_else, command_of, new_from_child, run, connect,
}

-- The command that a url and a configuration stand for, or nothing for the process's own streams.
pub data IsChoice (config : StdioConfig) (url : String)
    : Option (String × List String) → Type 0 where
  own : url ≡ "stdio://" → config.command ≡ "" → IsChoice config url none
  configured :
      url ≡ "stdio://"
      → (config.command == "") ≡ false
      → IsChoice config url (some (config.command, config.args))
  given :
      (rest program : String) (args : List String)
      → strip_prefix url "stdio://" ≡ some rest
      → split_whitespace rest ≡ program ∷ args
      → (program == "") ≡ false
      → IsChoice config url (some (program, args))

from_words-IsChoice :
    (config : StdioConfig) (url rest : String) (words : List String)
    (o : Option (String × List String))
    → strip_prefix url "stdio://" ≡ some rest
    → split_whitespace rest ≡ words
    → from_words words ≡ ok o
    → IsChoice config url o
from_words-IsChoice config url rest [] o s w e = err-ne-ok e
from_words-IsChoice config url rest (program ∷ args) o s w e = elim (Bool-cases (program == "")) [
  | inl t ↦ err-ne-ok (rw t at e)
  | inr f ↦ subst (IsChoice config url) (ok-injective (rw f at e)) (given rest program args s w f)
]

from_rest-IsChoice :
    (config : StdioConfig) (url : String) (r : Option String) (o : Option (String × List String))
    → strip_prefix url "stdio://" ≡ r
    → from_rest url r ≡ ok o
    → IsChoice config url o
from_rest-IsChoice config url none o s e = err-ne-ok e
from_rest-IsChoice config url (some rest) o s e =
    from_words-IsChoice config url rest (split_whitespace rest) o s refl e

own_command-IsChoice :
    (config : StdioConfig) (url : String)
    → url ≡ "stdio://"
    → IsChoice config url (own_command config)
own_command-IsChoice config url u = by_test (config.command == "") refl
  where
    by_test :
        (b : Bool)
        → (config.command == "") ≡ b
        → IsChoice config url (if b then none else some (config.command, config.args))
    by_test true e = own u ((eq_iff config.command "").0 e)
    by_test false e = configured u e

command_to_run-IsChoice :
    (config : StdioConfig) (url : String) (o : Option (String × List String))
    → command_to_run config url ≡ ok o
    → IsChoice config url o
unfolding command_to_run
command_to_run-IsChoice config url o e = by_test (url == "stdio://") refl e
  where
    by_test :
        (b : Bool)
        → (url == "stdio://") ≡ b
        → (if b then ok (own_command config) else from_rest url (strip_prefix url "stdio://"))
          ≡ ok o
        → IsChoice config url o
    by_test true t q =
        subst (IsChoice config url) (ok-injective q)
          (own_command-IsChoice config url ((eq_iff url "stdio://").0 t))
    by_test false t q = from_rest-IsChoice config url (strip_prefix url "stdio://") o refl q

module _ {W R C : Type 0} (processes : Processes W R C) where
  -- The stream has the ends of the pipes of this child, which it keeps without them.
  pub record IsOnChild (c : C) (program : String) (t : StdioTransportStream W R C) : Type 0 where
    pub write_ok : (processes.take_stdin c).0 ≡ some t.write
    pub read_ok : (processes.take_stdout (processes.take_stdin c).1).0 ≡ some t.read
    pub child_ok : t.child ≡ some (processes.take_stdout (processes.take_stdin c).1).1
    pub remote_ok : t.info.remote_addr ≡ some (lit program ∷ [])

  pub record IsOnSelf (t : StdioTransportStream W R C) : Type 0 where
    pub write_ok : t.write ≡ processes.stdout
    pub read_ok : t.read ≡ processes.stdin
    pub child_ok : t.child ≡ none

  or_else-eq-ok :
      {B : Type 0} (o : Option B) (x : TransportError) (b : B) → or_else o x ≡ ok b → o ≡ some b
  or_else-eq-ok none x b e = err-ne-ok e
  or_else-eq-ok (some a) x b e = ap some (ok-injective e)

  new_from_child-IsOnChild :
      (c : C) (program : String) (t : StdioTransportStream W R C)
      → new_from_child processes c program ≡ ok t
      → IsOnChild c program t
  unfolding new_from_child
  new_from_child-IsOnChild c program t e =
      let (w, p1, e1) = >>=-eq-ok (or_else (processes.take_stdin c).0 _) _ e in
      let (r, p2, e2) =
        >>=-eq-ok (or_else (processes.take_stdout (processes.take_stdin c).1).0 _) _ e1 in
      let same = ok-injective e2 in
      record {
        write_ok = or_else-eq-ok (processes.take_stdin c).0 _ w p1 ∙ ap (λ x. some x.write) same;
        read_ok =
            or_else-eq-ok (processes.take_stdout (processes.take_stdin c).1).0 _ r p2
            ∙ ap (λ x. some x.read) same;
        child_ok = sym (ap (λ x. x.child) same);
        remote_ok = sym (ap (λ x. x.info.remote_addr) same);
      }

  -- The stream of a choice.
  pub data IsStream (config : StdioConfig) (t : StdioTransportStream W R C)
      : Option (String × List String) → Type 0 where
    self : IsOnSelf t → IsStream config t none
    child :
        (program : String) (args : List String) (c : C)
        → processes.spawn (record {
          program = program;
          arguments = args;
          current_dir = config.working_dir;
          envs = config.env;
        })
          ≡ ok c
        → IsOnChild c program t
        → IsStream config t (some (program, args))

  pub record IsStarted (config : StdioConfig) (url : String) (t : StdioTransportStream W R C)
      : Type 0 where
    pub choice : Option (String × List String)
    pub choice_ok : IsChoice config url choice
    pub stream_ok : IsStream config t choice

  run-IsStream :
      (config : StdioConfig) (o : Option (String × List String)) (t : StdioTransportStream W R C)
      → run processes config o ≡ ok t
      → IsStream config t o
  unfolding run
  run-IsStream config none t e =
      let same = ok-injective e in
      self (record {
        write_ok = sym (ap (λ x. x.write) same);
        read_ok = sym (ap (λ x. x.read) same);
        child_ok = sym (ap (λ x. x.child) same);
      })
  run-IsStream config (some (program, args)) t e =
      let (c, spawned, made) = >>=-eq-ok _ _ e in
      child program args c
        (map_err-eq-ok _ (processes.spawn (command_of config (program, args))) c spawned)
        (new_from_child-IsOnChild c program t made)

  -- A stream that `connect` returns is on the process's own streams, where the url is "stdio://" and no
  -- command is configured, or on a child spawned with the directory and the environment of the
  -- configuration, with the ends of whose pipes it writes and reads: from the configured command where the url is "stdio://", and else from the words
  -- behind that, with the first of them, which is not empty, as the program.
  pub stdio_connect_sound :
      (config : StdioConfig) (url : String) (t : StdioTransportStream W R C)
      → connect processes config url ≡ ok t
      → IsStarted config url t
  unfolding connect
  stdio_connect_sound config url t e =
      let (o, chosen, ran) = >>=-eq-ok (command_to_run config url) _ e in
      record {
        choice = o;
        choice_ok = command_to_run-IsChoice config url o chosen;
        stream_ok = run-IsStream config o t ran;
      }
