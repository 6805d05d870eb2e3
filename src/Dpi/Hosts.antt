-- ===== src/Dpi/Hosts.antt =====
-- internal/dpi/applications.go, identifyHost: the application that the name of a host stands for.
-- net.SplitHostPort and the test `net.ParseIP(host) != nil` are parameters.
use netprobe_ir.Model.{DpiInfo}
use netprobe_ir.Prelude.{
  trim_space, to_lower, ◌++◌, ◌-◌, length, some, trim_right, ◌==◌, ◌||◌, [], false, take, trim_left,
  ◌∷◌, Bool, Option, codes, ends_with, if◌then◌else◌, none, Bytes, List, str_eq,
}

abbrev pub application_hosts : List (Bytes × List Bytes)
application_hosts =
    (
      codes "YouTube",
      codes "youtube.com" ∷ codes "youtu.be" ∷ codes "googlevideo.com" ∷ codes "ytimg.com" ∷ [],
    )
    ∷ (codes "Netflix", codes "netflix.com" ∷ codes "nflxvideo.net" ∷ codes "nflximg.net" ∷ [])
    ∷ (codes "Spotify", codes "spotify.com" ∷ codes "scdn.co" ∷ [])
    ∷ (codes "WhatsApp", codes "whatsapp.com" ∷ codes "whatsapp.net" ∷ [])
    ∷ (codes "Telegram", codes "telegram.org" ∷ codes "t.me" ∷ [])
    ∷ (
      codes "Discord",
      codes "discord.com"
          ∷ codes "discord.gg"
          ∷ codes "discordapp.com"
          ∷ codes "discordapp.net"
          ∷ [],
    )
    ∷ (codes "Zoom", codes "zoom.us" ∷ [])
    ∷ (codes "Microsoft Teams", codes "teams.microsoft.com" ∷ codes "teams.live.com" ∷ [])
    ∷ (codes "Slack", codes "slack.com" ∷ codes "slack-edge.com" ∷ [])
    ∷ (
      codes "GitHub",
      codes "github.com" ∷ codes "githubusercontent.com" ∷ codes "githubassets.com" ∷ [],
    )
    ∷ (codes "GitLab", codes "gitlab.com" ∷ [])
    ∷ (
      codes "Dropbox",
      codes "dropbox.com" ∷ codes "dropboxapi.com" ∷ codes "dropboxusercontent.com" ∷ [],
    )
    ∷ (codes "Google Drive", codes "drive.google.com" ∷ codes "drive.usercontent.google.com" ∷ [])
    ∷ (codes "OneDrive", codes "onedrive.live.com" ∷ codes "onedrive.com" ∷ codes "1drv.com" ∷ [])
    ∷ (codes "AWS", codes "amazonaws.com" ∷ [])
    ∷ (
      codes "Azure",
      codes "azure.com" ∷ codes "azurewebsites.net" ∷ codes "blob.core.windows.net" ∷ [],
    )
    ∷ (codes "Cloudflare", codes "cloudflare.com" ∷ codes "cloudflare-dns.com" ∷ [])
    ∷ []

pub in_domain : Bytes → List Bytes → Bool
unfolding str_eq ends_with
in_domain host [] = false
in_domain host (d ∷ ds) =
    let rest = in_domain host ds in str_eq host d || ends_with host (codes "." ++ d) || rest

-- the first application with a domain of the host
pub application_of : Bytes → List (Bytes × List Bytes) → Option Bytes
unfolding in_domain
application_of host [] = none
application_of host ((application, domains) ∷ rules) =
    let rest = application_of host rules in
    if in_domain host domains then some application else rest

-- space, slash, backslash, at sign, carriage return and line feed
no_host_byte : Bytes → Bool
no_host_byte [] = false
no_host_byte (c ∷ cs) =
    let rest = no_host_byte cs in
    c == 32 || c == 47 || c == 92 || c == 64 || c == 13 || c == 10 || rest

abbrev cut_dot : Bytes → Bytes
cut_dot s = if ends_with s (codes ".") then take (length s - 1) s else s

-- the name that the peer gave, and where it was
named : DpiInfo → Bytes × Bytes
unfolding str_eq
named i =
    let http : Bytes × Bytes = elim i.http [
      | none ↦ ([], [])
      | some h ↦ if str_eq h.host [] then ([], []) else (h.host, codes "http_host")
    ] in
    elim i.tls [ none ↦ http | some t ↦ if str_eq t.sni [] then http else (t.sni, codes "tls_sni") ]

-- an earlier name of the flow is forgotten
forget_host : DpiInfo → DpiInfo
unfolding str_eq
forget_host i = if str_eq i.matched_host [] then i else record i {
  matched_host = [];
  evidence = codes "payload";
  application = if str_eq i.protocol (codes "TLS") then codes "HTTPS/TLS" else i.protocol;
}

module _ (split_host_port : Bytes → Option Bytes) (is_ip : Bytes → Bool) where
  pub plain_host : Bytes → Bytes
  unfolding ends_with trim_left trim_right
  plain_host name =
      let host : Bytes = elim (split_host_port name) [ none ↦ name | some h ↦ h ] in
      cut_dot (to_lower (trim_space host))

  unfoldable pub identify_host : DpiInfo → DpiInfo
  unfolding named forget_host plain_host application_of no_host_byte str_eq
  identify_host i =
      let (name, evidence) = named i in
      let host = plain_host name in
      let i' = forget_host i in
      if str_eq host [] || no_host_byte host || is_ip host
      then i'
      else elim (application_of host application_hosts) [
        | none ↦ i'
        | some application ↦ record i' {
          application = application;
          matched_host = host;
          evidence = evidence;
        }
      ]
