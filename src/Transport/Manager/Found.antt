-- ===== src/Transport/Manager/Found.antt =====
-- The transports that a manager finds for the built-in schemes.
use text.Mathlib.Text.{◌==◌}
use mathlib.Core.Bool.{false≢true}
use zeroio.Common.{
  String, ◌≡◌, refl, ◌∙◌, ap, subst, sym, Bool, true, false, Option, some, List, [], ◌∷◌, ◌++◌,
  if◌then◌else◌, ◌||◌, Bool-cases, inl, inr, All,
}
use zeroio.Transport.Manager.{Transport, find_transport_for_url}
use zeroio.Transport.Manager.Registry.{
  Table, BuiltIn, default_transports, register_transport, register_all, register_default_transports,
}

-- A transport that was found, and supports the url.
pub record IsFound {D : Type 0} (url : String) (found : Option (Transport D)) : Type 0 where
  pub transport : Transport D
  pub found_ok : found ≡ some transport
  pub supports : transport.supports_url url ≡ true

find-IsFound :
    {D : Type 0} (url : String) (before after : List (Transport D)) (t : Transport D)
    → t.supports_url url ≡ true
    → IsFound url (find_transport_for_url (before ++ (t ∷ after)) url)
find-IsFound url [] after t s = record {
  transport = t;
  found_ok = ap (λ b. if b then some t else find_transport_for_url after url) s;
  supports = s;
}
find-IsFound url (b ∷ before) after t s =
    by_test (b.supports_url url) refl (find-IsFound url before after t s)
  where
    by_test :
        (first : Bool)
        → b.supports_url url ≡ first
        → IsFound url (find_transport_for_url (before ++ (t ∷ after)) url)
        → IsFound url (if first then some b else find_transport_for_url (before ++ (t ∷ after)) url)
    by_test true e rest = record { transport = b; found_ok = refl; supports = e }
    by_test false e rest = rest

module _ {M D : Type 0} (table : Table M D) where
  -- No transport of the list has this type.
  abbrev OtherType : String → Transport D → Type 0
  OtherType key t = (key == t.transport_type) ≡ false

  get-register_all :
      (key : String) (ts : List (Transport D)) (m : M)
      → All (OtherType key) ts
      → table.get key (register_all table ts m) ≡ table.get key m
  get-register_all key [] m others = refl
  get-register_all key (t ∷ ts) m (other, others) =
      get-register_all key ts (register_transport table t m) others
      ∙ table.get-insert_other t.transport_type key t m other

  registered-IsFound :
      (url : String) (t : Transport D) (ts : List (Transport D)) (m : M)
      → All (OtherType t.transport_type) ts
      → t.supports_url url ≡ true
      → IsFound url (find_transport_for_url (table.values (register_all table (t ∷ ts) m)) url)
  registered-IsFound url t ts m others s =
      let (before, after, e) = table.values-get t.transport_type t (register_all table (t ∷ ts) m) (
        get-register_all t.transport_type ts (register_transport table t m) others
        ∙ table.get-insert t.transport_type t m) in
      subst (λ l. IsFound url (find_transport_for_url l url)) (sym e)
        (find-IsFound url before after t s)

  abbrev pub any_supports : List (Transport D) → String → Bool
  any_supports [] url = false
  any_supports (t ∷ ts) url = t.supports_url url || any_supports ts url

  abbrev DistinctTypes : List (Transport D) → Type 0
  DistinctTypes [] = Unit
  DistinctTypes (t ∷ ts) = All (OtherType t.transport_type) ts × DistinctTypes ts

  register_all-IsFound :
      (url : String) (ts : List (Transport D)) (m : M)
      → DistinctTypes ts
      → any_supports ts url ≡ true
      → IsFound url (find_transport_for_url (table.values (register_all table ts m)) url)
  register_all-IsFound url [] m distinct s = absurd (false≢true s)
  register_all-IsFound url (t ∷ ts) m (others, distinct) s =
      elim (Bool-cases (t.supports_url url)) [
        | inl this ↦ registered-IsFound url t ts m others this
        | inr other ↦
            register_all-IsFound url ts (register_transport table t m) distinct
              (sym (ap (λ b. b || any_supports ts url) other) ∙ s)
      ]

  -- Once the built-in transports are registered, over whatever was registered before, a transport that
  -- supports it is found for each url of one of the schemes "tcp", "ipc", "stdio", "ws", "wss" and
  -- "chan".
  pub built_in-IsFound :
      (made : BuiltIn D) (m : M) (url : String)
      → any_supports (default_transports made) url ≡ true
      → IsFound url
          (find_transport_for_url (table.values (register_default_transports table made m)) url)
  built_in-IsFound made m url s = register_all-IsFound url (default_transports made) m distinct s
    where
      distinct : DistinctTypes (default_transports made)
      distinct = (
        (refl, (refl, (refl, (refl, tt)))),
        ((refl, (refl, (refl, tt))), ((refl, (refl, tt)), ((refl, tt), (tt, tt)))),
      )
