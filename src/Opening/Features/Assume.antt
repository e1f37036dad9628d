-- ===== src/Opening/Features/Assume.antt =====
-- libncftp/open.c, FTPQueryFeatures: what is taken of a server by its type, before it is asked.
use libncftp.Base.{ℕ, Bool, ◌||◌, ◌==◌, if◌then◌else◌}
use libncftp.Conn.{Conn, available, not_available}
use libncftp.Commands.Probe.{server_type_ncftpd}

-- kServerTypeWuFTPd and the like
abbrev pub server_type_wu_ftpd : ℕ
server_type_wu_ftpd = 1

abbrev pub server_type_pro_ftpd : ℕ
server_type_pro_ftpd = 3

abbrev pub server_type_microsoft_ftp : ℕ
server_type_microsoft_ftp = 4

abbrev pub server_type_net_ware_ftp : ℕ
server_type_net_ware_ftp = 11

abbrev pub server_type_dgux_ftp : ℕ
server_type_dgux_ftp = 13

abbrev pub server_type_ibm_ftpcs : ℕ
server_type_ibm_ftpcs = 14

abbrev pub server_type_pyramid : ℕ
server_type_pyramid = 15

-- What is set for the one server or the other before it is asked.
abbrev pub for_microsoft : Conn → Conn
for_microsoft c = record c {
  has_nlst_a = not_available;
  has_site_utime = not_available;
  features = record c.features { has_nlst_d = not_available; has_retr_tar = not_available };
}

abbrev pub for_net_ware : Conn → Conn
for_net_ware c = record c {
  has_size = not_available;
  has_mdtm = not_available;
  has_mdtm_set = not_available;
  nlst_file_param_works = available;
  has_mlst = not_available;
  has_site_utime = not_available;
  features = record c.features {
    has_pasv = available;
    has_rest = not_available;
    has_clnt = not_available;
    has_mlsd = not_available;
    has_help_site = not_available;
    has_retr_tar = not_available;
  };
}

abbrev pub for_older : Conn → Conn
for_older c = record c {
  has_mlst = not_available;
  has_site_utime = not_available;
  has_mfmt = not_available;
  has_mff = not_available;
  features = record c.features {
    has_clnt = not_available;
    has_mlsd = not_available;
    has_help_site = not_available;
    has_retr_tar = not_available;
  };
}

-- For wu-ftpd, and for NcFTPd but for MDTM with an argument.
abbrev pub for_wu_ftpd : Conn → Conn
for_wu_ftpd c = record c {
  has_size = available;
  has_mdtm = available;
  has_mdtm_set = available;
  nlst_file_param_works = available;
  features = record c.features { has_pasv = available; has_rest = available };
}

abbrev pub for_ncftpd : Conn → Conn
for_ncftpd c = record (for_wu_ftpd c) { has_mdtm_set = c.has_mdtm_set }

abbrev pub when : Bool → (Conn → Conn) → Conn → Conn
when test change c = if test then change c else c

-- The settings behind the test for NetWare, each over the one before.
unfoldable pub assume_features : Conn → Conn
assume_features c =
    let type = c.server_type in
    when (type == server_type_wu_ftpd) for_wu_ftpd (
      when (type == server_type_ncftpd) for_ncftpd (
        when
          (type == server_type_dgux_ftp
            || type == server_type_pyramid
            || type == server_type_ibm_ftpcs)
          for_older
          (when (type == server_type_pro_ftpd) (λ d. record d { has_nlst_a = not_available }) c)))
