-- ===== src/Database/Statements.antt =====
-- src/core/sp_firstrun.cpp: the statements of `firsrunCheckAll`.
use evcp.Base.{[], ◌∷◌, Bytes}
use evcp.Base.Text.{texts}

unfoldable pub create_vns : Bytes
create_vns = texts (
    "CREATE TABLE IF NOT EXISTS vns (" ∷ "vn_id INTEGER PRIMARY KEY ASC, " ∷ "vn_hostname, "
    ∷ "vn_priip, " ∷ "vn_created, " ∷ "vn_expires, " ∷ "vn_package, " ∷ "vn_cpu, " ∷ "vn_disksize, "
    ∷ "vn_numfiles, " ∷ "vn_numproc, " ∷ "vn_bnc_kmemsize, " ∷ "vn_bnc_lockedpages, "
    ∷ "vn_bnc_privvmpages, " ∷ "vn_bnc_shmpages, " ∷ "vn_bnc_numproc, " ∷ "vn_bnc_physpages, "
    ∷ "vn_bnc_vmguarpages, " ∷ "vn_bnc_oomguarpages, " ∷ "vn_bnc_numtcpsock, " ∷ "vn_bnc_numflock, "
    ∷ "vn_bnc_numpty, " ∷ "vn_bnc_numsiginfo, " ∷ "vn_bnc_tcpsndbuf, " ∷ "vn_bnc_tcprcvbuf, "
    ∷ "vn_bnc_othersockbuf, " ∷ "vn_bnc_dgramrcvbuf, " ∷ "vn_bnc_numothersock, "
    ∷ "vn_bnc_dcachesize, " ∷ "vn_bnc_numfile, " ∷ "vn_bnc_numiptent " ∷ ")" ∷ [])

unfoldable pub create_vns_ips : Bytes
create_vns_ips = texts (
    "CREATE TABLE IF NOT EXISTS vns_ips (" ∷ "vn_id INTEGER, " ∷ "ip_addr, " ∷ "ip_added " ∷ ")"
    ∷ [])

unfoldable pub create_remoteoslist : Bytes
create_remoteoslist = texts (
    "CREATE TABLE IF NOT EXISTS remoteoslist (" ∷ "os_file, " ∷ "os_size, " ∷ "os_url, "
    ∷ "os_date, " ∷ "UNIQUE() " ∷ ")" ∷ [])

unfoldable pub create_users : Bytes
create_users = texts (
    "CREATE TABLE IF NOT EXISTS `users` (" ∷ "user_id INTEGER PRIMARY KEY ASC, "
    ∷ "vn_id DEFAULT 0, " ∷ "userLogin DEFAULT '', " ∷ "userPasswd TEXT DEFAULT '', "
    ∷ "user_email DEFAULT 'root@localhost', " ∷ "user_voice DEFAULT '', "
    ∷ "user_primary DEFAULT 0, " ∷ "user_god DEFAULT 0, " ∷ "user_privs DEFAULT 'USAGE', "
    ∷ "user_added INTEGER DEFAULT 0, " ∷ "UNIQUE(userLogin) " ∷ ")" ∷ [])

unfoldable pub create_site_groups : Bytes
create_site_groups = texts (
    "CREATE TABLE IF NOT EXISTS `site_groups` (" ∷ "groupId INTEGER PRIMARY KEY ASC, "
    ∷ "groupName DEFAULT '', " ∷ "groupOrder INTEGER DEFAULT 0, " ∷ "UNIQUE(groupName) " ∷ ")" ∷ [])

unfoldable pub create_sites : Bytes
create_sites = texts (
    "CREATE TABLE IF NOT EXISTS `sites` (" ∷ "siteId INTEGER PRIMARY KEY ASC, "
    ∷ "siteDomain DEFAULT '', " ∷ "siteUrl DEFAULT '', " ∷ "groupId INTEGER DEFAULT 0, "
    ∷ "siteStatus INTEGER DEFAULT 0, " ∷ "siteHttpStatus INTEGER DEFAULT 0, "
    ∷ "siteLoadTime INTEGER DEFAULT 0, " ∷ "siteLastCheck INTEGER DEFAULT 0, "
    ∷ "UNIQUE(siteDomain) " ∷ ")" ∷ [])

unfoldable pub create_site_pages : Bytes
create_site_pages = texts (
    "CREATE TABLE IF NOT EXISTS `site_pages` (" ∷ "pageId INTEGER PRIMARY KEY ASC, "
    ∷ "pageUrl DEFAULT '', " ∷ "siteId INTEGER DEFAULT 0, " ∷ "pageStatus INTEGER DEFAULT 0, "
    ∷ "pageHttpStatus INTEGER DEFAULT 0, " ∷ "pageLoadTime INTEGER DEFAULT 0, "
    ∷ "pageSize INTEGER DEFAULT 0, " ∷ "pageLastCheck INTEGER DEFAULT 0, " ∷ "UNIQUE(pageUrl) "
    ∷ ")" ∷ [])

unfoldable pub insert_admin : Bytes
insert_admin = texts (
    "INSERT INTO users (userLogin,userPasswd,user_god,user_privs) VALUES('admin','eeeee','1','ROOT'); "
    ∷ [])

unfoldable pub insert_admin1 : Bytes
insert_admin1 = texts (
    "INSERT INTO users (userLogin,userPasswd,user_god,user_privs) VALUES('admin1','11111','1','ROOT'); "
    ∷ [])

unfoldable pub insert_admin2 : Bytes
insert_admin2 = texts (
    "INSERT INTO users (userLogin,userPasswd,user_god,user_privs) VALUES('admin2','11111','1','ROOT'); "
    ∷ [])

unfoldable pub insert_admin3 : Bytes
insert_admin3 = texts (
    "INSERT INTO users (userLogin,userPasswd,user_god,user_privs) VALUES('admin3','11111','1','ROOT'); "
    ∷ [])

unfoldable pub create_ip_pool : Bytes
create_ip_pool = texts (
    "CREATE TABLE IF NOT EXISTS ip_pool (" ∷ "ip_addr, " ∷ "ip_added, " ∷ "ip_avail DEFAULT '1', "
    ∷ "PRIMARY KEY(ip_addr) " ∷ ")" ∷ [])

unfoldable pub select_users : Bytes
select_users =
    texts ("SELECT user_id, userLogin, userPasswd, user_god, user_privs FROM users " ∷ [])
