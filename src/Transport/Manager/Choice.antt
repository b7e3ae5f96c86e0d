-- ===== src/Transport/Manager/Choice.antt =====
-- `TransportManager::find_transport_for_url` of crates/transport/src/manager.rs does not depend on the order
-- in which the concurrent map is iterated.
use Prim.Native.Char.{Char, code}
use Prim.Native.String.{String, ◌++◌ as append, [] as no_text, ◌∷◌ as cons}
use Prim.Native.String.append as Append
use text.Mathlib.Text.{starts_with}
use text.Mathlib.TextEquality.{starts_with_iff}
use mathlib.Core.Bool.{false≢true, true≢false}
use mathlib.Core.Option.{some-injective}
use zeroio.Common.{
  ℕ, zero, suc, ◌==◌, ◌≡◌, ◌⊎◌, inl, inr, refl, sym, ◌∙◌, ap, subst, true, false, Option, none,
  some, List, [], ◌∷◌, ◌||◌, if◌then◌else◌, Bool-cases, All, All-map,
}
use zeroio.Transport.Manager.{Transport, find_transport_for_url}
use zeroio.Transport.Manager.Registry.{
  Table, BuiltIn, default_transports, register_default_transports,
}
use zeroio.Transport.Manager.Found.{any_supports, built_in-IsFound}

abbrev pub IsAmong : {A : Type 0} → A → List A → Type 0
IsAmong a [] = ⊥
IsAmong a (b ∷ bs) = (a ≡ b) ⊎ IsAmong a bs

first_char :
    (c : Char) (rest url : String)
    → starts_with url (cons c rest) ≡ true
    → (s : String) × (url ≡ cons c s)
first_char c rest url e =
    let (u, p) = (starts_with_iff url (cons c rest)).0 e in
    (append rest u, sym p ∙ Append.cons c rest u)

head_code : String → ℕ
head_code no_text = 0
head_code (cons c s) = code c

begins_with :
    (c : Char) (rest url : String) → starts_with url (cons c rest) ≡ true → head_code url ≡ code c
unfolding head_code
begins_with c rest url e = let (s, p) = first_char c rest url e in ap head_code p

module _ {D : Type 0} (made : BuiltIn D) where
  nth : ℕ → Option (Transport D)
  nth n = pick n (default_transports made)
    where
      pick : ℕ → List (Transport D) → Option (Transport D)
      pick n [] = none
      pick zero (t ∷ ts) = some t
      pick (suc n) (t ∷ ts) = pick n ts

  -- The built-in transport of the urls that begin with this character.
  owner : ℕ → Option (Transport D)
  owner n =
      if n == 116
      then nth 0
      else if n == 105
      then nth 1
      else if n == 115
      then nth 2
      else if n == 119
      then nth 3
      else nth 4

  moved :
      {t t0 : Transport D} {url : String}
      → t ≡ t0
      → t.supports_url url ≡ true
      → t0.supports_url url ≡ true
  moved {url} e s = ap (λ t. t.supports_url url) (sym e) ∙ s

  web_socket_begins :
      (url : String)
      → starts_with url "ws://" || starts_with url "wss://" ≡ true
      → head_code url ≡ 119
  web_socket_begins url s = elim (Bool-cases (starts_with url "ws://")) [
    | inl plain ↦ begins_with "w" "s://" url plain
    | inr other ↦
        begins_with "w" "ss://" url (sym (ap (λ b. b || starts_with url "wss://") other) ∙ s)
  ]

  IsAmong-owner :
      (t : Transport D) (url : String)
      → IsAmong t (default_transports made)
      → t.supports_url url ≡ true
      → owner (head_code url) ≡ some t
  unfolding owner nth
  IsAmong-owner t url (inl e) s =
      ap owner (begins_with "t" "cp://" url (moved {url = url} e s)) ∙ ap some (sym e)
  IsAmong-owner t url (inr (inl e)) s =
      ap owner (begins_with "i" "pc://" url (moved {url = url} e s)) ∙ ap some (sym e)
  IsAmong-owner t url (inr (inr (inl e))) s =
      ap owner (begins_with "s" "tdio://" url (moved {url = url} e s)) ∙ ap some (sym e)
  IsAmong-owner t url (inr (inr (inr (inl e)))) s =
      ap owner (web_socket_begins url (moved {url = url} e s)) ∙ ap some (sym e)
  IsAmong-owner t url (inr (inr (inr (inr (inl e))))) s =
      ap owner (begins_with "c" "han://" url (moved {url = url} e s)) ∙ ap some (sym e)
  IsAmong-owner t url (inr (inr (inr (inr (inr e))))) s = elim e [ ]

module _ {D : Type 0} where
  -- What is found is one of the list, and supports the url.
  found_among :
      (P : Transport D → Type 0) (ts : List (Transport D)) (url : String) (t : Transport D)
      → All P ts
      → find_transport_for_url ts url ≡ some t
      → P t × (t.supports_url url ≡ true)
  found_among P [] url t all e = cc
  found_among P (b ∷ ts) url t (p, all) e = elim (Bool-cases (b.supports_url url)) [
    | inl first ↦
        let same : b ≡ t =
          some-injective b t
            (sym (ap (λ x. if x then some b else find_transport_for_url ts url) first) ∙ e) in
        (subst P same p, moved_to same first)
    | inr later ↦
        found_among P ts url t all
          (sym (ap (λ x. if x then some b else find_transport_for_url ts url) later) ∙ e)
  ]
    where
      moved_to : b ≡ t → b.supports_url url ≡ true → t.supports_url url ≡ true
      moved_to same s = ap (λ x. x.supports_url url) (sym same) ∙ s

All-IsAmong : {A : Type 0} (xs : List A) → All (λ a. IsAmong a xs) xs
All-IsAmong [] = tt
All-IsAmong (a ∷ rest) = (inl refl, All-map (λ b p. inr p) rest (All-IsAmong rest))

module _ {M D : Type 0} (table : Table M D) where
  none_supports :
      (ts : List (Transport D)) (url : String)
      → any_supports table ts url ≡ false
      → find_transport_for_url ts url ≡ none
  none_supports [] url e = refl
  none_supports (t ∷ ts) url e = elim (Bool-cases (t.supports_url url)) [
    | inl first ↦ absurd (true≢false (sym (ap (λ b. b || any_supports table ts url) first) ∙ e))
    | inr later ↦
        ap (λ x. if x then some t else find_transport_for_url ts url) later
        ∙ none_supports ts url (sym (ap (λ b. b || any_supports table ts url) later) ∙ e)
  ]

  one_supports :
      (ts : List (Transport D)) (url : String)
      → any_supports table ts url ≡ true
      → (t : Transport D) × (find_transport_for_url ts url ≡ some t)
  one_supports [] url e = absurd (false≢true e)
  one_supports (t ∷ ts) url e = elim (Bool-cases (t.supports_url url)) [
    | inl first ↦ (t, ap (λ x. if x then some t else find_transport_for_url ts url) first)
    | inr later ↦
        let (u, q) =
          one_supports ts url (sym (ap (λ b. b || any_supports table ts url) later) ∙ e) in
        (u, ap (λ x. if x then some t else find_transport_for_url ts url) later ∙ q)
  ]

  IsAmong-supports :
      (t : Transport D) (ts : List (Transport D)) (url : String)
      → IsAmong t ts
      → t.supports_url url ≡ true
      → any_supports table ts url ≡ true
  IsAmong-supports t [] url i s = elim i [ ]
  IsAmong-supports t (u ∷ ts) url (inl e) s =
      ap (λ b. b || any_supports table ts url) (ap (λ x. x.supports_url url) (sym e) ∙ s)
  IsAmong-supports t (u ∷ ts) url (inr i) s = elim (Bool-cases (u.supports_url url)) [
    | inl first ↦ ap (λ b. b || any_supports table ts url) first
    | inr later ↦ ap (λ b. b || any_supports table ts url) later ∙ IsAmong-supports t ts url i s
  ]

  -- Of a manager that has the built-in transports and no other ones, the transport that is found for a
  -- url does not depend on the order in which the map of transports is iterated: it is the one that is
  -- found in the order in which they are registered, and none where none of them supports the url.
  pub order_is_irrelevant :
      (made : BuiltIn D) (m : M) (url : String)
      → All
          (λ t. IsAmong t (default_transports made))
          (table.values (register_default_transports table made m))
      → find_transport_for_url (table.values (register_default_transports table made m)) url
        ≡ find_transport_for_url (default_transports made) url
  order_is_irrelevant made m url all =
      elim (Bool-cases (any_supports table (default_transports made) url)) [
        | inl supported ↦
            let found = built_in-IsFound table made m url supported in
            let (t, first) = one_supports (default_transports made) url supported in
            let (among, supports) =
              found_among (λ t. IsAmong t (default_transports made)) (default_transports made) url t
                (All-IsAmong (default_transports made)) first in
            let (among', supports') =
              found_among (λ t. IsAmong t (default_transports made)) _ url found.transport all
                found.found_ok in
            found.found_ok
            ∙ sym (IsAmong-owner made found.transport url among' supports')
            ∙ IsAmong-owner made t url among supports
            ∙ sym first
        | inr unsupported ↦
            by_found (find_transport_for_url values url) refl unsupported
            ∙ sym (none_supports (default_transports made) url unsupported)
      ]
    where
      values : List (Transport D)
      values = table.values (register_default_transports table made m)

      by_found :
          (o : Option (Transport D))
          → find_transport_for_url values url ≡ o
          → any_supports table (default_transports made) url ≡ false
          → find_transport_for_url values url ≡ none
      by_found none e unsupported = e
      by_found (some t) e unsupported =
          let (among, supports) =
            found_among (λ t. IsAmong t (default_transports made)) values url t all e in
          absurd (
            true≢false
              (sym (IsAmong-supports t (default_transports made) url among supports) ∙ unsupported))
