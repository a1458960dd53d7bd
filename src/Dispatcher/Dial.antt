-- ===== src/Dispatcher/Dial.antt =====
-- internal/dispatcher/ssrf.go: how the delivering client dials.
use web_hook_project.Prelude.{
  Bool, false, not, ◌&&◌, ◌||◌, List, [], ◌∷◌, ◌++◌, Option, none, some, Text, if◌then◌else◌, ◌≡◌,
  inl, inr, refl, sym, subst, arith, All, All-append, Bool-cases, Option-cases,
}
use web_hook_project.Prelude.Errors.{Error, message, Result, ok, err, Result-cases}
use web_hook_project.Dispatcher.Restricted.{Ip, is_restricted_ip}

-- ErrRestrictedDestination
abbrev pub restricted_destination : Error
restricted_destination = message "destination IP is restricted (SSRF protection)"

-- What package net does: SplitHostPort and JoinHostPort, ParseIP, the resolver's LookupIP, the
-- addresses that the dialer finds for one by its own lookup, and whether one of them answers.
pub record Net : Type 0 where
  pub split_host_port : Text → Result (Text × Text)
  pub join_host_port : Text → Text → Text
  pub parse_ip : Text → Option Ip
  pub lookup_ip : Text → Result (List Ip)
  pub resolve : Text → Result (List Text)
  pub connect : Text → Option Error

-- Where a dial got to: the connection's address or the error, and the addresses that were contacted.
pub record Dialed : Type 0 where
  pub result : Result Text
  pub contacted : List Text

abbrev pub refused : Error → Dialed
refused e = record { result = err e; contacted = [] }

-- net.JoinHostPort is the dialer's business where the host is a name; `allow_private` is for local use.
module _ (net : Net) (allow_private : Bool) where
  -- The dialer's Control, called with each address before it is contacted.
  unfoldable pub control : Text → Option Error
  control address = if allow_private then none else (elim (net.split_host_port address) [
    | err e ↦ some e
    | ok (host, _) ↦ elim (net.parse_ip host) [
      | none ↦ none
      | some ip ↦ if is_restricted_ip (some ip) then some restricted_destination else none
    ]
  ])

  -- One address: Control, and then the connection.
  abbrev pub contact : Option Error → Text → Option Error × List Text
  contact (some e) address = (some e, [])
  contact none address = (net.connect address, address ∷ [])

  abbrev pub first_error : Option Error → Error → Error
  first_error none e = e
  first_error (some e) other = e

  abbrev pub behind : List Text → Dialed → Dialed
  behind contacted d = record { result = d.result; contacted = contacted ++ d.contacted }

  abbrev pub tried : Option Error × List Text → Text → (Error → Dialed) → Dialed
  tried (none, contacted) address later = record { result = ok address; contacted = contacted }
  tried (some e, contacted) address later = behind contacted (later e)

  -- The dialer tries the addresses in turn and gives the first connection, or else the first error.
  unfoldable pub dial_serial : Option Error → List Text → Dialed
  dial_serial failed [] = refused (first_error failed (message "missing address"))
  dial_serial failed (address ∷ addresses) =
      tried (contact (control address) address) address
        (λ e. dial_serial (some (first_error failed e)) addresses)

  abbrev pub dial_resolved : Result (List Text) → Dialed
  dial_resolved (err e) = refused e
  dial_resolved (ok addresses) = dial_serial none addresses

  -- The DialContext of net.Dialer
  abbrev pub dialer_dial : Text → Dialed
  dialer_dial addr = dial_resolved (net.resolve addr)

  abbrev pub any_restricted : List Ip → Bool
  any_restricted [] = false
  any_restricted (ip ∷ ips) = is_restricted_ip (some ip) || any_restricted ips

  -- The transport's DialContext.
  unfoldable pub dial_context : Text → Dialed
  dial_context addr = elim (net.split_host_port addr) [
    | err e ↦ refused e
    | ok (host, port) ↦ elim (net.parse_ip host) [
      | some ip ↦
          if not allow_private && is_restricted_ip (some ip)
          then refused restricted_destination
          else dialer_dial addr
      | none ↦
          if allow_private
          then dialer_dial (net.join_host_port host port)
          else (elim (net.lookup_ip host) [
            | err e ↦ refused e
            | ok [] ↦ refused (message "no IP addresses found for destination host")
            | ok (ip ∷ ips) ↦
                if any_restricted (ip ∷ ips)
                then refused restricted_destination
                else dialer_dial (net.join_host_port host port)
          ])
    ]
  ]

-- The address is not written as a restricted one.
abbrev pub IsPublic : Net → Text → Type 0
IsPublic net address =
    (host port : Text) (ip : Ip)
    → net.split_host_port address ≡ ok (host, port)
    → net.parse_ip host ≡ some ip
    → is_restricted_ip (some ip) ≡ false

module _ (net : Net) where
  control-IsPublic : (address : Text) → control net false address ≡ none → IsPublic net address
  unfolding control
  control-IsPublic address passed host port ip split parsed = ground arith

  contact-IsPublic :
      (o : Option Error) (address : Text)
      → (o ≡ none → IsPublic net address)
      → All (IsPublic net) (contact net false o address).1
  contact-IsPublic none address safe = (safe refl, tt)
  contact-IsPublic (some e) address safe = tt

  -- What the loop has contacted, whatever it finds at one address.
  step-IsPublic :
      (o : Option Error × List Text) (address : Text) (later : Error → Dialed)
      → All (IsPublic net) o.1
      → ((e : Error) → All (IsPublic net) (later e).contacted)
      → All (IsPublic net) (tried net false o address later).contacted
  step-IsPublic (none, contacted) address later here others = here
  step-IsPublic (some e, contacted) address later here others =
      All-append (IsPublic net) contacted (later e).contacted here (others e)

  dial_serial-IsPublic :
      (failed : Option Error) (addresses : List Text)
      → All (IsPublic net) (dial_serial net false failed addresses).contacted
  unfolding dial_serial
  dial_serial-IsPublic failed [] = tt
  dial_serial-IsPublic failed (address ∷ addresses) =
      step-IsPublic (contact net false (control net false address) address) address
        (λ e. dial_serial net false (some (first_error net false failed e)) addresses)
        (contact-IsPublic (control net false address) address (control-IsPublic address))
        (λ e. dial_serial-IsPublic (some (first_error net false failed e)) addresses)

  resolved-IsPublic :
      (r : Result (List Text)) → All (IsPublic net) (dial_resolved net false r).contacted
  resolved-IsPublic (err e) = tt
  resolved-IsPublic (ok addresses) = dial_serial-IsPublic none addresses

  dialer_dial-IsPublic : (addr : Text) → All (IsPublic net) (dialer_dial net false addr).contacted
  dialer_dial-IsPublic addr = resolved-IsPublic (net.resolve addr)

  -- With the protection on, only addresses that are not restricted are contacted, whatever names mean
  -- at the first lookup and at the dialer's own.
  pub dial_context-IsPublic :
      (addr : Text) → All (IsPublic net) (dial_context net false addr).contacted
  unfolding dial_context
  dial_context-IsPublic addr =
      let refused_public = λ (e : Error) (here : dial_context net false addr ≡ refused e).
        subst (λ d. All (IsPublic net) d.contacted) (sym here) tt in
      let dialed_public =
        λ (a : Text) (here : dial_context net false addr ≡ dialer_dial net false a).
          subst (λ d. All (IsPublic net) d.contacted) (sym here) (dialer_dial-IsPublic a) in
      elim (Result-cases (net.split_host_port addr)) [
        | inl (e, bad) ↦ refused_public e (ground arith)
        | inr ((host, port), split) ↦ elim (Option-cases (net.parse_ip host)) [
          | inr (ip, parsed) ↦ elim (Bool-cases (is_restricted_ip (some ip))) [
            | inl closed ↦ refused_public restricted_destination (ground arith)
            | inr public ↦ dialed_public addr (ground arith)
          ]
          | inl named ↦ elim (Result-cases (net.lookup_ip host)) [
            | inl (e, unknown) ↦ refused_public e (ground arith)
            | inr ([], found) ↦
                refused_public (message "no IP addresses found for destination host") (ground arith)
            | inr (ip ∷ ips, found) ↦ elim (Bool-cases (any_restricted net false (ip ∷ ips))) [
              | inl closed ↦ refused_public restricted_destination (ground arith)
              | inr public ↦ dialed_public (net.join_host_port host port) (ground arith)
            ]
          ]
        ]
      ]
