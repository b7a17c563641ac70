-- ===== src/Repository/Memory.antt =====
-- internal/adapter/repository/memory.go. `range` is the order in which Go ranges over a map.
use Prim.Native.String.{String}
use mathlib.Core.List.{List, [], map, ◌∷◌}
use mathlib.Core.Option.{Option, none, some}
use mathlib.Core.Path.{◌≡◌}
use native.Mathlib.Omega.{arith}
use omnicatena.Base.{if◌then◌else◌, string_eq, ◌==◌}
use omnicatena.Base.Exec.{Exec}
use omnicatena.Base.Map.{Map, insert, lookup, lookup-insert}
use omnicatena.Base.Result.{Result, err, errorf, ok, str}
use omnicatena.Domain.{Wallet}

abbrev pub Wallets : Type 0
Wallets = Map String Wallet

unfoldable pub save : Wallet → Exec Wallets (Unit {0})
save w m = (ok tt, insert w.id w m)

get_from : String → Option Wallet → Result Wallet
get_from id none = err (errorf "repository: wallet %s not found" (str id ∷ []))
get_from id (some w) = ok w

unfoldable pub get : String → Exec Wallets Wallet
unfolding get_from
get id m = (get_from id (lookup id m), m)

unfoldable pub list : (Wallets → Wallets) → Exec Wallets (List Wallet)
list range m = (ok (map (λ (_, w). w) (range m)), m)

-- After a save, the wallet's id gives that wallet, and every other id what it gave before.
pub get-save :
    (w : Wallet) (id : String) (m : Wallets)
    → (get id (save w m).1).0 ≡ (if w.id == id then ok w else (get id m).0)
unfolding get save
get-save w id m = rw (lookup-insert w.id id w m) (ground arith)
