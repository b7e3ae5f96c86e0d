-- ===== src/Examples/Channels.antt =====
-- The channel transport at concrete inputs: an empty registry, and ends numbered by their duplex.
use zeroio.Common.{none, ℕ, ◌≡◌, refl, String, Bool, true, false, some, [], ◌∷◌, Result, ok}
use zeroio.Transport.Io.{Url}
use zeroio.Transport.Channel.{Registry, new}
use zeroio.Transport.Channel.Pairing.{Names}
use zeroio.Transport.Channel.Clients.{connect_all, clients_paired}
use zeroio.Transport.Channel.Race.{connected, raced, race_strands}

abbrev End : Type 0
End = ℕ × Bool

abbrev ends : ℕ → End × End
ends n = ((n, true), (n, false))

-- Every text is a url of the channel of that name.
abbrev parse : String → Result String Url
parse name =
    ok (record { scheme = "chan"; host_str = some name; port = none; path = ""; as_str = name })

abbrev nobody : Registry End
nobody = record { queues = λ name. []; made = 0 }

test-Names : Names ends parse "test" "test"
test-Names = record { parts = _; parsed = refl; scheme_ok = refl; host_ok = refl; not_empty = refl }

clients_paired_example :
    ((connect_all ends parse "test" 3 nobody).0
      ≡ ok (new (0, false) "test") ∷ ok (new (0, true) "test") ∷ ok (new (1, false) "test") ∷ [])
    × ((connect_all ends parse "test" 3 nobody).1.queues "test" ≡ (1, true) ∷ [])
    × ((connect_all ends parse "test" 3 nobody).1.queues "other" ≡ [])
clients_paired_example =
    clients_paired ends parse "test" 3 "test" "other" nobody test-Names refl refl

race_strands_example :
    ((raced ends "test" nobody).one ≡ connected (0, false))
    × ((raced ends "test" nobody).two ≡ connected (1, false))
    × ((raced ends "test" nobody).registry.queues "test" ≡ (0, true) ∷ (1, true) ∷ [])
race_strands_example = race_strands ends "test" nobody refl
