-- ===== src/Command/Open/Ledger.antt =====
-- What an account that `open` of cmd/railctl/main.go returns has for a ledger.
use mathlib.Core.Path.{subst}
use juice_rail.Base.{ℕ, ◌≡◌, refl, ap, sym, ◌∙◌, ◌⊎◌, inl, inr, true, Option, some, none}
use juice_rail.Base.Lists.{Bytes, some-injective}
use juice_rail.Base.Error.{Result, ok, err, ok-injective, chained}
use juice_rail.Chain.{Chain}
use juice_rail.Check.{new_rail}
use juice_rail.Domain
use juice_rail.Domain.{Domain}
use juice_rail.Keys.{Eth, parse_key, domain_key}
use juice_rail.Keys.Domains.{SpellsAddresses, domain_key-injective}
use juice_rail.Machine.{Rail, World}
use juice_rail.Observed.{open_store}
use juice_rail.Observed.Opening.{Bound, open_store-Bound}
use juice_rail.Profile.{Inputs, config_domain, resolve}
use juice_rail.Profile.Disk.{put, put_at, put_cases}
use juice_rail.Sql.{Db}
use juice_rail.Command.Open.{
  Opening, Files, Found, find_out, Opened, start_app, open_found, open_app,
}
use juice_rail.Trace.Runs.{Run, Run-History}

-- The rail of an open account is that of the flags, the file and the node, and its store is bound to its ledger.
pub record Serves (eth : Eth) (o : Opening) (before after : Files) (a : Opened) : Type 1 where
  pub inputs : Inputs
  pub resolved : resolve eth.hex_to_address o.setup ≡ ok inputs
  pub path : a.path ≡ inputs.store
  pub account : parse_key eth inputs.key ≡ ok a.app.rail.address
  pub domain : config_domain eth.hex_to_address inputs.domain ≡ ok a.app.rail.domain
  pub node : o.dial inputs.domain.rpc ≡ ok (record { chain = a.app.rail.chain; node = a.node })
  pub valid : Domain.validate a.app.rail.domain ≡ ok tt
  pub bound :
      Bound
        (domain_key eth a.app.rail.domain.chain_id a.app.rail.domain.token)
        (before a.path).tables
        (after a.path).tables
  pub elsewhere : (p : Bytes) → (p ≡ a.path) ⊎ (after p ≡ before p)

new_rail_ok :
    (d : Domain) (c : Chain) (account : ℕ) (r : Rail)
    → new_rail d true (some c) (some account) ≡ ok r
    → (Domain.validate d ≡ ok tt) × (record { domain = d; chain = c; address = account } ≡ r)
unfolding new_rail
new_rail_ok d c account r h =
    let (u, valid, rest) = chained (Domain.validate d) _ h in (valid, ok-injective rest)

-- What a file is bound to that opens again.
same_key :
    (bound : Option Bytes) (key key' : Bytes)
    → bound ≡ some key
    → (bound ≡ none) ⊎ (bound ≡ some key')
    → key ≡ key'
same_key bound key key' h (inl none_yet) = cc
same_key bound key key' h (inr other) = some-injective (sym h ∙ other)

module _ (eth : Eth) (o : Opening) where
  found_all :
      (f : Found)
      → find_out eth o ≡ ok f
      → (resolve eth.hex_to_address o.setup ≡ ok f.inputs)
        × (parse_key eth f.inputs.key ≡ ok f.account)
        × (config_domain eth.hex_to_address f.inputs.domain ≡ ok f.domain)
        × (o.dial f.inputs.domain.rpc ≡ ok f.endpoint)
  unfolding find_out
  found_all f h =
      let (i, h1, k1) = chained (resolve eth.hex_to_address o.setup) _ h in
      let (account, h2, k2) = chained (parse_key eth i.key) _ k1 in
      let (d, h3, k3) = chained (config_domain eth.hex_to_address i.domain) _ k2 in
      let (c, h4, k4) = chained (o.dial i.domain.rpc) _ k3 in
      let same = ok-injective k4 in
      (
        h1 ∙ ap (λ g. ok g.inputs) same,
        ap (λ g. parse_key eth g.inputs.key) (sym same) ∙ h2 ∙ ap (λ g. ok g.account) same,
        ap (λ g. config_domain eth.hex_to_address g.inputs.domain) (sym same)
            ∙ h3
            ∙ ap (λ g. ok g.domain) same,
        ap (λ g. o.dial g.inputs.domain.rpc) (sym same) ∙ h4 ∙ ap (λ g. ok g.endpoint) same,
      )

  abbrev opened_as : Found → Opened
  opened_as f = record {
    app = record {
      rail = record { domain = f.domain; chain = f.endpoint.chain; address = f.account };
      halt_after = o.halt_after;
      no_refill = o.no_refill;
      eth = eth;
    };
    path = f.inputs.store;
    node = f.endpoint.node;
  }

  started :
      (f : Found) (a : Opened)
      → start_app eth o f ≡ ok a
      → (Domain.validate f.domain ≡ ok tt) × (opened_as f ≡ a)
  unfolding start_app
  started f a h =
      let (r, new, rest) =
        chained (new_rail f.domain true (some f.endpoint.chain) (some f.account)) _ h in
      let (valid, rail) = new_rail_ok f.domain f.endpoint.chain f.account r new in
      (
        valid,
        ap
              (λ x. record (opened_as f) {
                app = record (opened_as f).app { rail = record x { chain = f.endpoint.chain } };
              })
              rail
            ∙ ok-injective rest,
      )

  module _ (f : Found) (files : Files) where
    abbrev opening : Result (Unit {0}) × Db
    opening = open_store (domain_key eth f.domain.chain_id f.domain.token) (files f.inputs.store)

    abbrev files_after : Files
    files_after = put files f.inputs.store opening.1

    Bound-opening :
        opening.0 ≡ ok tt
        → Bound
            (domain_key eth f.domain.chain_id f.domain.token)
            (files f.inputs.store).tables
            (files_after f.inputs.store).tables
    Bound-opening done = rw (put_at files f.inputs.store opening.1) (
        open_store-Bound (domain_key eth f.domain.chain_id f.domain.token) (files f.inputs.store)
          done)

    only_there : (p : Bytes) → (p ≡ f.inputs.store) ⊎ (files_after p ≡ files p)
    only_there p = elim (put_cases files f.inputs.store opening.1 p) [
      | inl (same, at) ↦ inl same
      | inr at ↦ inr at
    ]

    Serves-found :
        find_out eth o ≡ ok f
        → opening.0 ≡ ok tt
        → Domain.validate f.domain ≡ ok tt
        → Serves eth o files files_after (opened_as f)
    Serves-found finds done valid =
        let (i, account, d, c) = found_all f finds in
        record {
          inputs = f.inputs;
          resolved = i;
          path = refl;
          account = account;
          domain = d;
          node = c;
          valid = valid;
          bound = Bound-opening done;
          elsewhere = only_there;
        }

  serves :
      (found : Result Found) (files after : Files) (a : Opened)
      → find_out eth o ≡ found
      → open_found eth o files found ≡ (ok a, after)
      → Serves eth o files after a
  unfolding open_found
  serves (err e) files after a finds h = let no : err e ≡ ok a = ap (λ out. out.0) h in cc
  serves (ok f) files after a finds h =
      let (u, done, rest) = chained (opening f files).0 _ (ap (λ out. out.0) h) in
      let (valid, same) = started f a rest in
      subst (λ x. Serves eth o files x a) (ap (λ out. out.1) h)
        (subst (Serves eth o files (files_after f files)) same
          (Serves-found f files finds done valid))

-- An account that opens has the rail, the key and the store that the flags and the files say, on a valid domain; its
-- store is bound to the chain and the token of that domain and was bound to no other before, and neither anything
-- else in it nor any other file has changed.
pub open_app-Serves :
    (eth : Eth) (o : Opening) (files after : Files) (a : Opened)
    → open_app eth o files ≡ (ok a, after)
    → Serves eth o files after a
unfolding open_app
open_app-Serves eth o files after a h = serves eth o (find_out eth o) files after a refl h

-- A file serves one ledger for good: where an account was opened on it, and its methods then ran in any way, an
-- account that opens on the file afterwards, with any flags and any node, is on the same chain and has the same token.
-- go-ethereum spells an address as "0x" and the digits of its 20 bytes, in some case.
pub open_app-Run-open_app :
    (eth : Eth) (o o' : Opening) (files after files' after' : Files) (a a' : Opened)
    {u w : World a.app.rail.chain.Node}
    → SpellsAddresses eth
    → open_app eth o files ≡ (ok a, after)
    → u.store.tables ≡ (after a.path).tables
    → Run a.app.rail u w
    → (files' a'.path).tables ≡ w.store.tables
    → open_app eth o' files' ≡ (ok a', after')
    → (a.app.rail.domain.chain_id ≡ a'.app.rail.domain.chain_id)
      × (a.app.rail.domain.token ≡ a'.app.rail.domain.token)
open_app-Run-open_app eth o o' files after files' after' a a' {u} {w} spells first start run stop
      again =
    let s = open_app-Serves eth o files after a first in
    let s' = open_app-Serves eth o' files' after' a' again in
    let d = a.app.rail.domain in
    let bound : w.store.tables.domain ≡ some (domain_key eth d.chain_id d.token) =
      (Run-History a.app.rail run).domain ∙ ap (λ t. t.domain) (start ∙ s.bound.tables) in
    let now : (files' a'.path).tables.domain ≡ some (domain_key eth d.chain_id d.token) =
      ap (λ t. t.domain) stop ∙ bound in
    domain_key-injective eth d a'.app.rail.domain spells s.valid s'.valid
      (same_key _ _ _ now s'.bound.was)
