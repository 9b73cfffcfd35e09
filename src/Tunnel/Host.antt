-- ===== src/Tunnel/Host.antt =====
-- internal/sshtunnel: where a tunnel connects, as whom, and with which agent. What the machine answers,
-- the files, the environment, the network and ssh itself, is a record.
use d9s.Base.{
  zero, suc, Bool, not, ◌&&◌, List, [], ◌∷◌, ◌++◌, Option, none, some, Bytes, codes, if◌then◌else◌,
  ◌⊎◌, inl, inr, equal, has_prefix, index_byte, contains_byte, take, drop, to_lower, trim_space,
}
use d9s.Base.Int.{ℤ, pos, itoa}
use d9s.Config.Connection.{Ssh}
use d9s.Config.Net.{atoi}
use d9s.Script.Split.{split_lines}

-- The functions of os, os/user, path/filepath, net, knownhosts and ssh that connect calls. E is the type of
-- their errors, K the host key check, S a socket and C a client.
pub record Machine (E K S C : Type 0) : Type 0 where
  pub home : E ⊎ Bytes
  pub join : List Bytes → Bytes
  pub is_socket : Bytes → Bool
  pub auth_sock : Bytes
  pub dial_agent : Bytes → E ⊎ S
  pub ssh_g : Bytes → Option Bytes
  pub current_user : E ⊎ Bytes
  pub exists : Bytes → Bool
  pub known_hosts : List Bytes → E ⊎ K
  pub dial_tcp : Bytes → E ⊎ S
  pub handshake : S → S → Bytes → Bytes → K → E ⊎ C

-- hostSettings
pub record HostSettings : Type 0 where
  pub hostname : Bytes
  pub user : Bytes
  pub port : ℤ

unfoldable pub set_port : HostSettings → Option ℤ → HostSettings
set_port s none = s
set_port s (some p) = record s { port = p }

-- The switch of lookupHost on a key and its value.
unfoldable pub set_host : Bytes → Bytes → HostSettings → HostSettings
unfolding to_lower equal atoi set_port
set_host key value s =
    if equal (to_lower key) (codes "hostname")
    then record s { hostname = value }
    else if equal (to_lower key) (codes "user")
    then record s { user = value }
    else if equal (to_lower key) (codes "port")
    then set_port s (atoi value)
    else s

unfoldable pub host_line : Bytes → HostSettings → HostSettings
unfolding set_host index_byte
host_line line s = elim (index_byte line b' ') [
  | none ↦ s
  | some i ↦ set_host (take i line) (drop (suc i) line) s
]

unfoldable pub host_lines : List Bytes → HostSettings → HostSettings
unfolding host_line trim_space
host_lines [] s = s
host_lines (line ∷ lines) s = host_lines lines (host_line (trim_space line) s)

-- lookupHost, on what ssh -G printed
unfoldable pub lookup_host : Bytes → Option Bytes → HostSettings
unfolding host_lines split_lines
lookup_host alias none = record { hostname = alias; user = []; port = pos 0 }
lookup_host alias (some out) =
    host_lines (split_lines out []) (record { hostname = alias; user = []; port = pos 0 })

-- cmp.Or
abbrev pub or_text : Bytes → Bytes → Bytes
or_text [] t = t
or_text (c ∷ s) t = c ∷ s

abbrev pub port_or : ℤ → ℤ → ℤ
port_or (pos zero) q = q
port_or p q = p

-- net.JoinHostPort
unfoldable pub join_host_port : Bytes → Bytes → Bytes
unfolding contains_byte
join_host_port host port =
    if contains_byte host b':'
    then codes "[" ++ host ++ codes "]:" ++ port
    else host ++ codes ":" ++ port

-- bastionAddr
unfoldable pub bastion_addr : Bytes → ℤ → Bytes
unfolding join_host_port itoa
bastion_addr hostname port = join_host_port hostname (itoa (port_or port (pos 22)))

-- What connect fails with, next to the errors of the machine.
pub data TunnelError (E : Type 0) : Type 0 where
  no_agent no_known_hosts : TunnelError E
  expanding agent_dial unknown_user no_home parsing_hosts dialing handshaking : E → TunnelError E

module _ {E K S C : Type 0} (m : Machine E K S C) where
  unfoldable pub expanded : Bytes → E ⊎ Bytes → TunnelError E ⊎ Bytes
  expanded p (inl err) = inl (expanding err)
  expanded p (inr home) = inr (m.join (home ∷ drop 1 p ∷ []))

  -- expandTilde
  unfoldable pub expand_tilde : Bytes → TunnelError E ⊎ Bytes
  unfolding expanded equal has_prefix
  expand_tilde p =
      if not (equal p (codes "~")) && not (has_prefix p (codes "~/"))
      then inr p
      else expanded p m.home

  -- The agent of the environment.
  unfoldable pub env_agent : Bytes → TunnelError E ⊎ Bytes
  env_agent [] = inl no_agent
  env_agent (c ∷ s) = inr (c ∷ s)

  unfoldable pub home_agent : E ⊎ Bytes → TunnelError E ⊎ Bytes
  unfolding env_agent
  home_agent (inl err) = env_agent m.auth_sock
  home_agent (inr home) =
      let p = m.join (home ∷ codes ".1password" ∷ codes "agent.sock" ∷ []) in
      if m.is_socket p then inr p else env_agent m.auth_sock

  -- resolveAgentSocket
  unfoldable pub resolve_agent_socket : Bytes → TunnelError E ⊎ Bytes
  unfolding expand_tilde home_agent
  resolve_agent_socket [] = home_agent m.home
  resolve_agent_socket (c ∷ explicit) = expand_tilde (c ∷ explicit)

  unfoldable pub os_user : E ⊎ Bytes → TunnelError E ⊎ Bytes
  os_user (inl err) = inl (unknown_user err)
  os_user (inr name) = inr name

  -- resolveUser
  unfoldable pub resolve_user : Bytes → TunnelError E ⊎ Bytes
  unfolding os_user
  resolve_user [] = os_user m.current_user
  resolve_user (c ∷ configured) = inr (c ∷ configured)

  -- The files of hostKeyCallback that there are.
  unfoldable pub existing : Bytes → List Bytes → List Bytes
  existing home [] = []
  existing home (name ∷ names) =
      let p = m.join (home ∷ codes ".ssh" ∷ name ∷ []) in
      let rest = existing home names in if m.exists p then p ∷ rest else rest

  unfoldable pub checked_hosts : E ⊎ K → TunnelError E ⊎ K
  checked_hosts (inl err) = inl (parsing_hosts err)
  checked_hosts (inr k) = inr k

  unfoldable pub read_hosts : List Bytes → TunnelError E ⊎ K
  unfolding checked_hosts
  read_hosts [] = inl no_known_hosts
  read_hosts (f ∷ files) = checked_hosts (m.known_hosts (f ∷ files))

  -- hostKeyCallback
  unfoldable pub host_key_callback : E ⊎ Bytes → TunnelError E ⊎ K
  unfolding existing read_hosts
  host_key_callback (inl err) = inl (no_home err)
  host_key_callback (inr home) =
      read_hosts (existing home (codes "known_hosts" ∷ codes "known_hosts2" ∷ []))

  unfoldable pub shaken : E ⊎ C → TunnelError E ⊎ C
  shaken (inl err) = inl (handshaking err)
  shaken (inr c) = inr c

  unfoldable pub with_socket : S → Bytes → Bytes → K → E ⊎ S → TunnelError E ⊎ C
  unfolding shaken
  with_socket agent user addr key (inl err) = inl (dialing err)
  with_socket agent user addr key (inr s) = shaken (m.handshake agent s user addr key)

  unfoldable pub with_key : S → Bytes → Bytes → TunnelError E ⊎ K → TunnelError E ⊎ C
  unfolding with_socket
  with_key agent user addr (inl err) = inl err
  with_key agent user addr (inr key) = with_socket agent user addr key (m.dial_tcp addr)

  unfoldable pub with_user : S → Bytes → TunnelError E ⊎ Bytes → TunnelError E ⊎ C
  unfolding with_key host_key_callback
  with_user agent addr (inl err) = inl err
  with_user agent addr (inr user) = with_key agent user addr (host_key_callback m.home)

  unfoldable pub with_agent : Ssh → E ⊎ S → TunnelError E ⊎ C
  unfolding with_user lookup_host resolve_user bastion_addr
  with_agent cfg (inl err) = inl (agent_dial err)
  with_agent cfg (inr agent) =
      let host = lookup_host cfg.bastion (m.ssh_g cfg.bastion) in
      with_user agent (bastion_addr host.hostname (port_or cfg.port host.port))
        (resolve_user (or_text cfg.user host.user))

  unfoldable pub with_agent_at : Ssh → TunnelError E ⊎ Bytes → TunnelError E ⊎ C
  unfolding with_agent
  with_agent_at cfg (inl err) = inl err
  with_agent_at cfg (inr path) = with_agent cfg (m.dial_agent path)

  -- connect
  unfoldable pub connect : Ssh → TunnelError E ⊎ C
  unfolding with_agent_at resolve_agent_socket
  connect cfg = with_agent_at cfg (resolve_agent_socket cfg.agent_socket)
