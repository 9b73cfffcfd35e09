-- ===== src/Config/Accepted.antt =====
-- What validation lets through, as a whole.
use d9s.Base.{
  ℕ, zero, suc, inl, inr, ◌≡◌, ◌≢◌, refl, sym, false, List, [], ◌∷◌, Option, none, some, Bytes,
  equal_iff, arith, All,
}
use d9s.Base.Int.{ℤ, pos, negsuc}
use d9s.Config.Connection.{Ssh, Connection, contains_text}
use d9s.Config.Validate.{
  ConfigError, or_port, with_ssh_port, default_port, with_ports, connection_error, with_warning,
  Checked, prepend, checked, validate_from, validate,
}
use d9s.Config.Valid.{IsPort, IsTunnel, IsValid}
use d9s.Config.Valid.Checked.{connection_error-IsValid}

-- No two connections have one name.
abbrev pub Distinct : List Connection → Type 0
Distinct [] = Unit
Distinct (c ∷ cs) = All (λ d. d.name ≢ c.name) cs × Distinct cs

-- The names of the connections whose password is a literal.
abbrev pub plaintext_names : List Connection → List Bytes
plaintext_names [] = []
plaintext_names (c ∷ cs) = with_warning c (plaintext_names cs)

-- The parts of a result that is no error.
pub record Parts (o : Option ConfigError) (c : Connection) (rest : Checked) (ds : List Connection)
    (ws : List Bytes) : Type 0 where
  pub passed : o ≡ none
  pub others : List Connection
  pub warned : List Bytes
  pub is_rest : rest ≡ inr (others, warned)
  pub is_all : ds ≡ c ∷ others
  pub is_warned : ws ≡ with_warning c warned

same_name : (c : Connection) → (with_ports c).name ≡ c.name
unfolding with_ports
same_name c = refl

checked_inv :
    (o : Option ConfigError) (c : Connection) (rest : Checked) (ds : List Connection)
    (ws : List Bytes)
    → checked o c rest ≡ inr (ds, ws)
    → Parts o c rest ds ws
unfolding checked prepend
checked_inv (some e) c rest ds ws h = cc
checked_inv none c (inl e) ds ws h = cc
checked_inv none c (inr (cs, warned)) ds ws h = record {
  passed = refl;
  others = cs;
  warned = warned;
  is_rest = refl;
  is_all = cc;
  is_warned = cc;
}

or_port_kept : (p : ℤ) (n : ℕ) → IsPort p → or_port p n ≡ p
or_port_kept (pos zero) n i = ground (arith, i.is_number, i.positive)
or_port_kept (pos (suc m)) n i = refl
or_port_kept (negsuc m) n i = refl

tunnel_kept : (c : Connection) (o : Option Ssh) → IsTunnel c o → with_ssh_port o ≡ o
tunnel_kept c none i = refl
tunnel_kept c (some s) i = rw (or_port_kept s.port 22 i.2) refl

with_ports_kept : (c : Connection) → IsValid c → with_ports c ≡ c
unfolding with_ports
with_ports_kept c v =
    rw (or_port_kept c.port (default_port c) v.port_in_range, tunnel_kept c c.ssh v.tunnel) refl

not_named :
    (x : Bytes) (seen : List Bytes) (name : Bytes)
    → contains_text (x ∷ seen) name ≡ false
    → name ≢ x
unfolding contains_text
not_named x seen name h e = ground (arith, (equal_iff x name).1 (sym e))

seen_names :
    (x : Bytes) (seen : List Bytes) (ds : List Connection)
    → All (λ d. contains_text (x ∷ seen) d.name ≡ false) ds
    → All (λ d. d.name ≢ x) ds × All (λ d. contains_text seen d.name ≡ false) ds
unfolding contains_text
seen_names x seen [] h = (tt, tt)
seen_names x seen (d ∷ ds) h =
    let rest = seen_names x seen ds h.1 in
    ((not_named x seen d.name h.0, rest.0), (ground arith, rest.1))

-- A port that was open is the default one, and any other is kept.
abbrev pub PortFilled : ℤ → ℕ → ℤ → Type 0
PortFilled before default after =
    (before ≡ pos 0 → after ≡ pos default) × (before ≢ pos 0 → after ≡ before)

-- An SSH block differs in an open port at most, for which it has 22.
abbrev pub SshFilled : Option Ssh → Option Ssh → Type 0
SshFilled none none = Unit
SshFilled none (some t) = ⊥
SshFilled (some s) none = ⊥
SshFilled (some s) (some t) = (t ≡ record s { port = t.port }) × PortFilled s.port 22 t.port

-- A connection differs from the one of the file in its open ports at most.
pub record IsFilled (c d : Connection) : Type 0 where
  pub others : d ≡ record c { port = d.port; ssh = d.ssh }
  pub port : PortFilled c.port (default_port c) d.port
  pub ssh : SshFilled c.ssh d.ssh

abbrev pub AllFilled : List Connection → List Connection → Type 0
AllFilled [] [] = Unit
AllFilled [] (d ∷ ds) = ⊥
AllFilled (c ∷ cs) [] = ⊥
AllFilled (c ∷ cs) (d ∷ ds) = IsFilled c d × AllFilled cs ds

or_port-PortFilled : (p : ℤ) (n : ℕ) → PortFilled p n (or_port p n)
or_port-PortFilled (pos zero) n = (λ e. refl, λ e. absurd (e refl))
or_port-PortFilled (pos (suc m)) n = (λ e. cc, λ e. refl)
or_port-PortFilled (negsuc m) n = (λ e. cc, λ e. refl)

with_ssh_port-SshFilled : (o : Option Ssh) → SshFilled o (with_ssh_port o)
with_ssh_port-SshFilled none = tt
with_ssh_port-SshFilled (some s) = (refl, or_port-PortFilled s.port 22)

with_ports-IsFilled : (c : Connection) → IsFilled c (with_ports c)
unfolding with_ports
with_ports-IsFilled c = record {
  others = refl;
  port = or_port-PortFilled c.port (default_port c);
  ssh = with_ssh_port-SshFilled c.ssh;
}

-- Everything that validation promises, of the connections from one on.
pub record Accepted (seen : List Bytes) (cs ds : List Connection) (ws : List Bytes) : Type 0 where
  pub valid : All IsValid ds
  pub fresh : All (λ d. contains_text seen d.name ≡ false) ds
  pub distinct : Distinct ds
  pub filled : AllFilled cs ds
  pub warned : ws ≡ plaintext_names ds

nothing_left :
    (ds : List Connection) (ws : List Bytes)
    → ◌≡◌ {A = Checked} (inr ([], [])) (inr (ds, ws))
    → ([] ≡ ds) × ([] ≡ ws)
nothing_left ds ws h = (cc, cc)

Accepted-cons :
    (seen : List Bytes) (d c : Connection) {cs ds : List Connection} {ws : List Bytes}
    → d ≡ with_ports c
    → d.name ≡ c.name
    → IsValid d × (contains_text seen d.name ≡ false)
    → All (λ e. e.name ≢ c.name) ds
    → All (λ e. contains_text seen e.name ≡ false) ds
    → Accepted (c.name ∷ seen) cs ds ws
    → Accepted seen (c ∷ cs) (d ∷ ds) (with_warning d ws)
Accepted-cons seen d c is named first others unseen rest = record {
  valid = (first.0, rest.valid);
  fresh = (first.1, unseen);
  distinct = (rw named others, rest.distinct);
  filled = (rw is (with_ports-IsFilled c), rest.filled);
  warned = rw rest.warned refl;
}

validate_from-Accepted :
    (i : ℕ) (seen : List Bytes) (cs ds : List Connection) (ws : List Bytes)
    → validate_from i seen cs ≡ inr (ds, ws)
    → Accepted seen cs ds ws
unfolding validate_from
validate_from-Accepted i seen [] ds ws h =
    rw (sym (nothing_left ds ws h).0, sym (nothing_left ds ws h).1)
      (record { valid = tt; fresh = tt; distinct = tt; filled = tt; warned = refl })
validate_from-Accepted i seen (c ∷ cs) ds ws h =
    let p = checked_inv _ _ _ ds ws h in
    let first = connection_error-IsValid i seen (with_ports c) p.passed in
    let rest = validate_from-Accepted (suc i) (c.name ∷ seen) cs p.others p.warned p.is_rest in
    let names = seen_names c.name seen p.others rest.fresh in
    rw (p.is_all, p.is_warned)
      (Accepted-cons seen (with_ports c) c refl (same_name c) first names.0 names.1 rest)

again_cons :
    (i : ℕ) (seen : List Bytes) (d : Connection) (ds : List Connection) (ws : List Bytes)
    → with_ports d ≡ d
    → connection_error i seen d ≡ none
    → validate_from (suc i) (d.name ∷ seen) ds ≡ inr (ds, ws)
    → validate_from i seen (d ∷ ds) ≡ inr (d ∷ ds, with_warning d ws)
unfolding validate_from checked prepend
again_cons i seen d ds ws kept passed rest = rw (kept, passed, rest) refl

validate_from_again :
    (i : ℕ) (seen : List Bytes) (cs ds : List Connection) (ws : List Bytes)
    → validate_from i seen cs ≡ inr (ds, ws)
    → validate_from i seen ds ≡ inr (ds, ws)
unfolding validate_from
validate_from_again i seen [] ds ws h =
    rw (sym (nothing_left ds ws h).0, sym (nothing_left ds ws h).1) refl
validate_from_again i seen (c ∷ cs) ds ws h =
    let p = checked_inv _ _ _ ds ws h in
    let first = connection_error-IsValid i seen (with_ports c) p.passed in
    let rest = validate_from_again (suc i) (c.name ∷ seen) cs p.others p.warned p.is_rest in
    rw (p.is_all, p.is_warned)
      (again_cons i seen (with_ports c) p.others p.warned (with_ports_kept (with_ports c) first.0)
        p.passed (rw (same_name c) rest))

-- When validation accepts a configuration: every connection that it leaves is valid, no two have one
-- name, the connections are those of the file in the file's order, with the default in place of a port
-- of 0 and nothing else changed, and the warnings are about the connections with a literal password, and no other, in that order.
pub validate-Accepted :
    (cs ds : List Connection) (ws : List Bytes) → validate cs ≡ inr (ds, ws) → Accepted [] cs ds ws
unfolding validate
validate-Accepted cs ds ws h = validate_from-Accepted 0 [] cs ds ws h

-- A configuration as validation leaves it is accepted again, as it is and with the same warnings.
pub validate-validate :
    (cs ds : List Connection) (ws : List Bytes)
    → validate cs ≡ inr (ds, ws)
    → validate ds ≡ inr (ds, ws)
unfolding validate
validate-validate cs ds ws h = validate_from_again 0 [] cs ds ws h
