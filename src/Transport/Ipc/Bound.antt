-- ===== src/Transport/Ipc/Bound.antt =====
-- The paths of `IpcTransport`, and what its `listen` leaves behind.
use Prim.Native.String.{◌++◌ as append, slice, len}
use text.Mathlib.Text.{◌==◌, starts_with}
use text.Mathlib.TextEquality.{eq_iff}
use text.Mathlib.TextLemmas.{append_assoc as append_text_assoc}
use text.Mathlib.TextPositions.{starts_with-append, slice-append_right, len-append}
use mathlib.Core.Bool.{true≢false}
use mathlib.Core.Option.{some-injective}
use zeroio.Common.{
  String, ◌≡◌, refl, sym, ◌∙◌, ap, subst, Bool, true, false, Option, none, some, [], ◌∷◌, Result,
  ok, err, panic, ◌>>=◌, if◌then◌else◌, >>=-eq-ok, map_err-eq-ok, ok-injective, err-ne-ok,
  panic-ne-ok, Bool-cases, inl, inr,
}
use zeroio.Protocol.Errors.{lit}
use zeroio.Transport.Errors.{TransportResult, invalid_url}
use zeroio.Transport.Io.{Url, parsed, from_io_result}
use zeroio.Transport.Ipc.{
  Files, IpcTransportListener, path_str, strip_slash, normalize_path, path_of, parse_path,
  clear_path, create_parent, bind_at, unix_listen, listen, listen_path,
}

normalize_path-absolute : (p : String) → starts_with (normalize_path p) "/" ≡ true
normalize_path-absolute p = by_slash (starts_with p "/") refl
  where
    by_slash :
        (b : Bool)
        → starts_with p "/" ≡ b
        → starts_with (if b then p else append "/tmp/" p) "/" ≡ true
    by_slash true e = e
    by_slash false e =
        subst (λ q. starts_with q "/" ≡ true) (sym (append_text_assoc "/" "tmp/" p))
          (starts_with-append "/" (append "tmp/" p))

path_of-absolute : (u : Url) (p : String) → path_of u ≡ ok p → starts_with p "/" ≡ true
path_of-absolute u p e = elim (Bool-cases (u.scheme == "ipc")) [
  | inr f ↦ err-ne-ok (rw f at e)
  | inl t ↦ elim (Bool-cases (path_str u.host_str u.path == "")) [
    | inl t' ↦ err-ne-ok (rw (t, t') at e)
    | inr f' ↦
        subst (λ q. starts_with q "/" ≡ true) (ok-injective (rw (t, f') at e))
          (normalize_path-absolute (strip_slash (path_str u.host_str u.path)))
  ]
]

-- Every socket path is absolute.
parse_path-absolute :
    (r : Result String Url) (p : String) → parse_path r ≡ ok p → starts_with p "/" ≡ true
unfolding parse_path
parse_path-absolute r p e = let (u, _, q) = >>=-eq-ok (parsed r) _ e in path_of-absolute u p q

strip_slash-append : (p : String) → strip_slash (append "/" p) ≡ p
strip_slash-append p =
    ap (λ b. if b then slice (append "/" p) 1 (len (append "/" p)) else append "/" p)
      (starts_with-append "/" p)
    ∙ ap (slice (append "/" p) 1) (len-append "/" p)
    ∙ slice-append_right "/" p

absolute-not_empty : (s : String) → starts_with s "/" ≡ true → (s == "") ≡ false
absolute-not_empty s e = elim (Bool-cases (s == "")) [
  | inr f ↦ f
  | inl t ↦ absurd (true≢false (sym (subst (λ w. starts_with w "/" ≡ true) ((eq_iff s "").0 t) e)))
]

-- The absolute path of a url "ipc:///<path>" is moved into "/tmp/".
pub absolute_path_moved :
    (u : Url) (p : String)
    → (u.scheme == "ipc") ≡ true
    → u.host_str ≡ none
    → u.path ≡ append "/" p
    → starts_with p "/" ≡ false
    → parse_path (ok u) ≡ ok (append "/tmp/" p)
unfolding parse_path
absolute_path_moved u p s h e f =
    ap
      (λ b.
        if b
        then in_path (path_str u.host_str u.path)
        else err (invalid_url (lit "Expected ipc:// scheme, got " ∷ lit u.scheme ∷ lit "://" ∷ [])))
      s
    ∙ ap in_path (ap (λ o. path_str o u.path) h ∙ e)
    ∙ ap
        (λ b.
          if b
          then err (invalid_url (lit "Missing path in IPC URL" ∷ []))
          else ok (normalize_path (strip_slash (append "/" p))))
        (absolute-not_empty (append "/" p) (starts_with-append "/" p))
    ∙ ap (λ q. ok (normalize_path q)) (strip_slash-append p)
    ∙ ap (λ b. ok (if b then p else append "/tmp/" p)) f
  where
    in_path : String → TransportResult String
    in_path q =
        if q == ""
        then err (invalid_url (lit "Missing path in IPC URL" ∷ []))
        else ok (normalize_path (strip_slash q))

module _ {F S L : Type 0} (files : Files F S L) where
  create_parent-exists :
      (o : Option String) (f f' : F) (u : Unit {0}) (d : String)
      → create_parent files o f ≡ (ok u, f')
      → o ≡ some d
      → files.exists d f' ≡ true
  create_parent-exists none f f' u d e o = cc
  create_parent-exists (some dir) f f' u d e o =
      subst (λ x. files.exists x f' ≡ true) (some-injective dir d o)
        (by_test (files.exists dir f) refl e)
    where
      by_test :
          (b : Bool)
          → files.exists dir f ≡ b
          → ◌≡◌ {A = TransportResult (Unit {0}) × F}
              (if b then (ok tt, f) else (
                from_io_result (files.create_dir_all dir f).0,
                (files.create_dir_all dir f).1,
              ))
              (ok u, f')
          → files.exists dir f' ≡ true
      by_test true t q = subst (λ g. files.exists dir g ≡ true) (ap (λ x. x.1) q) t
      by_test false t q =
          subst (λ g. files.exists dir g ≡ true) (ap (λ x. x.1) q)
            (files.create_ok dir f u
              (map_err-eq-ok _ (files.create_dir_all dir f).0 u (ap (λ x. x.0) q)))

  -- What was at the path, if anything, can be removed.
  abbrev pub IsRemovable : String → F → Type 0
  IsRemovable path f = files.exists path f ≡ true → (files.remove_file path f).0 ≡ ok tt

  clear_path-absent :
      (path : String) (f : F)
      → IsRemovable path f
      → files.exists path (clear_path files path f) ≡ false
  clear_path-absent path f removable = elim (Bool-cases (files.exists path f)) [
    | inl there ↦ rw there (files.remove_ok path f tt (removable there))
    | inr absent ↦ rw absent absent
  ]

  create_parent-absent :
      (path : String) (o : Option String) (f : F)
      → files.parent path ≡ o
      → files.exists path f ≡ false
      → files.exists path (create_parent files o f).1 ≡ false
  create_parent-absent path none f p absent = absent
  create_parent-absent path (some dir) f p absent = elim (Bool-cases (files.exists dir f)) [
    | inl there ↦ rw there absent
    | inr missing ↦ rw missing (files.create_other path dir f p absent)
  ]

  -- A listener that stands on the files `before`, at an absolute path whose directory exists.
  pub record IsBound (r : Result String Url) (f : F) (t : IpcTransportListener L) (f' : F)
      : Type 0 where
    pub before : F
    pub path_ok : parse_path r ≡ ok t.path
    pub absolute : starts_with t.path "/" ≡ true
    pub cleared : IsRemovable t.path f → files.exists t.path before ≡ false
    pub bound : files.bind t.path before ≡ (ok t.inner, f')
    pub parent_ok : (dir : String) → files.parent t.path ≡ some dir → files.exists dir before ≡ true

  IsBound-path :
      (r : Result String Url) (path : String) (f : F) (t : IpcTransportListener L) (f' : F)
      → parse_path r ≡ ok path
      → listen_path files (ok path) f ≡ (ok t, f')
      → IsBound r f t f'
  unfolding listen_path unix_listen
  IsBound-path r path f t f' p e =
      by_created (create_parent files (files.parent path) (clear_path files path f)) refl e
    where
      by_created :
          (c : TransportResult (Unit {0}) × F)
          → create_parent files (files.parent path) (clear_path files path f) ≡ c
          → ◌≡◌ {A = TransportResult (IpcTransportListener L) × F}
              (
                (bind_at files path c).0 >>= (λ l. ok (record { inner = l; path = path })),
                (bind_at files path c).1,
              )
              (ok t, f')
          → IsBound r f t f'
      by_created (err x, before) c q = err-ne-ok (ap (λ x. x.0) q)
      by_created (panic, before) c q = panic-ne-ok (ap (λ x. x.0) q)
      by_created (ok u, before) c q =
          let (l, bound, made) =
            >>=-eq-ok (bind_at files path (ok u, before)).0 _ (ap (λ x. x.0) q) in
          subst (λ t. IsBound r f t f') (ok-injective made)
            (record {
              before = before;
              path_ok = p;
              absolute = parse_path-absolute r path p;
              cleared = λ removable.
                  subst (λ x. files.exists path x ≡ false) (ap (λ x. x.1) c)
                    (create_parent-absent path (files.parent path) (clear_path files path f) refl
                      (clear_path-absent path f removable));
              bound =
                  λ i. (map_err-eq-ok _ (files.bind path before).0 l bound i, (ap (λ x. x.1) q) i);
              parent_ok = λ dir o.
                  create_parent-exists (files.parent path) (clear_path files path f) before u dir c
                    o;
            })

  -- A listener that `listen` returns stands at the absolute path of its url. When it is bound, the
  -- directory of the path exists, and nothing is at the path any more, unless there was something that
  -- could not be removed.
  pub ipc_listen_sound :
      (parse : String → Result String Url) (url : String) (f : F) (t : IpcTransportListener L)
      (f' : F)
      → listen files parse url f ≡ (ok t, f')
      → IsBound (parse url) f t f'
  unfolding listen
  ipc_listen_sound parse url f t f' e = by_path (parse_path (parse url)) refl e
    where
      by_path :
          (r : TransportResult String)
          → parse_path (parse url) ≡ r
          → listen_path files r f ≡ (ok t, f')
          → IsBound (parse url) f t f'
      by_path (ok path) p q = IsBound-path (parse url) path f t f' p q
      by_path (err x) p q = err-ne-ok (ap (λ x. x.0) q)
      by_path panic p q = panic-ne-ok (ap (λ x. x.0) q)
