-- ===== src/Console/Texts/Sites.antt =====
-- src/modules/mgr/mgr_sites.cpp: the literal texts of its pages and queries.
use evcp.Base.{[], ◌∷◌, Bytes}
use evcp.Base.Text.{texts}

-- The query of `mgrSiteList`
unfoldable pub sites_query : Bytes
sites_query = texts (
    "SELECT s.siteId, s.siteDomain, s.siteUrl, s.siteStatus, s.siteHttpStatus, "
    ∷ "s.siteLoadTime, s.siteLastCheck, g.groupName " ∷ "FROM sites s "
    ∷ "LEFT JOIN site_groups g ON g.groupId=s.groupId " ∷ "ORDER BY s.siteDomain" ∷ [])

-- The list of sites, in front of its rows
unfoldable pub sites_head : Bytes
sites_head = texts (
    "<doc mtime=\"45gvergv4rg\" binary=\"/mgr/\" theme=\"/sirius/\" "
    ∷ "fixpng=\"\" localdir=\"local/\" img=\"\" css=\"main.css\" logolink=\"/mgr/\" logo=\"logo-vdsmgr.png\" >"
    ∷ "<p_num>1</p_num>" ∷ "<p_cnt>30</p_cnt>" ∷ "<p_sort>''</p_sort>" ∷ "<p_order>''</p_order>"
    ∷ "<plid></plid>" ∷ "<func>sitegroups</func>" ∷ "<slave></slave>" ∷ "<tfilter></tfilter>"
    ∷ "<metadata type=\"list\" selficon=\"equipment\" key=\"sid\">"
    ∷ "<coldata type=\"list\" key=\"sid\">"
    ∷ "<col type=\"data\" name=\"sid\" wrap=\"no\" align=\"left\" />"
    ∷ "<col type=\"data\" name=\"sdomain\" wrap=\"no\" align=\"left\" />"
    ∷ "<col type=\"data\" name=\"surl\" wrap=\"no\" align=\"left\" />"
    ∷ "<col type=\"data\" name=\"sstatus\" wrap=\"no\" align=\"left\" />"
    ∷ "<col type=\"data\" name=\"shttpstatus\" wrap=\"no\" align=\"left\" />"
    ∷ "<col type=\"data\" name=\"sloadtime\" wrap=\"no\" align=\"left\" />"
    ∷ "<col type=\"data\" name=\"slastcheck\" wrap=\"no\" align=\"left\" />"
    ∷ "<col type=\"data\" name=\"gname\" wrap=\"no\" align=\"left\" />"
    ∷ "<col type=\"data\" name=\"pagecount\" wrap=\"no\" align=\"left\" stat=\"stat\" />"
    ∷ "<col type=\"data\" name=\"problems\" wrap=\"no\" align=\"left\" stat=\"stat\"  />"
    ∷ "</coldata>" ∷ "<toolbar type=\"list\" key=\"sss\">"
    ∷ "<toolbtn type=\"func\" name=\"siteadd\" img=\"t-new\" default=\"no\" func=\"tb_op_new('siteadd')\" />"
    ∷ "<toolbtn type=\"func\" name=\"siteedit\" img=\"t-edit\" default=\"no\" func=\"tb_op_new('siteedit')\" />"
    ∷ "<toolbtn type=\"editlist\" name=\"pagelist\" img=\"t-iplist\" default=\"yes\" func=\"siteurls\" />"
    ∷ "<toolbtn type=\"group\" name=\"sitedelete\" img=\"t-delete\" func=\"sitedel\" />"
    ∷ "</toolbar>" ∷ "</metadata>" ∷ [])

-- The list of sites, behind its rows
unfoldable pub sites_tail : Bytes
sites_tail = texts (
    "<messages>" ∷ "<msg name=\"title\">Сайты</msg>" ∷ "<msg name=\"sid\">ID</msg>"
    ∷ "<msg name=\"sdomain\">Домен</msg>" ∷ "<msg name=\"surl\">URL</msg>"
    ∷ "<msg name=\"sstatus\">Состояние</msg>" ∷ "<msg name=\"shttpstatus\">HTTP-статус</msg>"
    ∷ "<msg name=\"sloadtime\">Скорость загрузки</msg>"
    ∷ "<msg name=\"slastcheck\">Посл. проверка</msg>" ∷ "<msg name=\"gname\">Имя группы</msg>"
    ∷ "<msg name=\"pagecount\">Страниц</msg>" ∷ "<msg name=\"problems\">Проблем</msg>"
    ∷ "<msg name=\"m0\">WAS?</msg>" ∷ "<msg name=\"hint_ipcreate\">Добавить сайт</msg>"
    ∷ "<msg name=\"hint_ipedit\">Изменить свойства сайта</msg>"
    ∷ "<msg name=\"hint_ipdelete\">Удалить сайт</msg>"
    ∷ "<msg name=\"msg_nosel\">Ничего не выделено</msg>"
    ∷ "<msg name=\"msg_sitedel\">Удалить сайт</msg>" ∷ "<msg name=\"msg_disabled\">Отключено</msg>"
    ∷ "<msg name=\"msg_m0\">ЩИТО?</msg>" ∷ "</messages>" ∷ "</doc>" ∷ [])

-- The form of a new site, in front of the groups
unfoldable pub site_form : Bytes
site_form = texts (
    "<doc mtime=\"45gvergv4rg\" binary=\"/mgr/\" theme=\"/sirius/\" "
    ∷ "fixpng=\"no\" localdir=\"local/\" img=\"\" css=\"main.css\">" ∷ "<plid></plid>"
    ∷ "<func>siteadd</func>" ∷ "<slave></slave>" ∷ "<metadata type=\"form\" name=\"siteadd\">"
    ∷ "<form height=\"200\" maxwidth=\"300\" focus=\"single\" top=\"yes\" extokmsg=\"dddd\">"
    ∷ "<page name=\"single\">"
    ∷ "<field name=\"newdomain\"><input type=\"text\" name=\"newdomain\" /></field>"
    ∷ "<field name=\"newurl\"><input type=\"text\" name=\"newurl\" /></field>"
    ∷ "<field name=\"gid\"><select name=\"gid\" /></field>" ∷ "</page>" ∷ "</form>" ∷ "</metadata>"
    ∷ "<messages>" ∷ "<msg name=\"title\">Добавление сайта</msg>"
    ∷ "<msg name=\"msg_extokmsg\">Создать</msg>" ∷ "<msg name=\"msg_back\">Отмена</msg>"
    ∷ "<msg name=\"m0\">WAS?</msg>" ∷ "<msg name=\"newdomain\">Домен сайта</msg>"
    ∷ "<msg name=\"newurl\">URL для проверки</msg>"
    ∷ "<msg name=\"multistart\">Начало диапазона IP-адрес</msg>"
    ∷ "<msg name=\"multiend\">Окончание диапазона IP-адрес</msg>"
    ∷ "<msg name=\"msg_m0\">ЩИТО?</msg>" ∷ "</messages>" ∷ "<pwgenlen>'8'</pwgenlen>"
    ∷ "<pwgencharacters></pwgencharacters>" ∷ "<slist name=\"gid\">" ∷ [])
