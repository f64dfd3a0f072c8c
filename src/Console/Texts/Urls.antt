-- ===== src/Console/Texts/Urls.antt =====
-- src/modules/mgr/mgr_siteurls.cpp: the literal texts of its pages and queries.
use evcp.Base.{[], ◌∷◌, Bytes}
use evcp.Base.Text.{texts}

-- The query of `mgrSiteUrls`
unfoldable pub urls_query : Bytes
urls_query = texts (
    "SELECT s.pageId, s.pageUrl, s.pageStatus, s.pageHttpStatus, "
    ∷ "s.pageLoadTime, s.pageLastCheck, s.pageSize " ∷ "FROM site_pages s " ∷ [])

-- The list of pages, in front of the id
unfoldable pub urls_start : Bytes
urls_start = texts (
    "<doc mtime=\"45gvergv4rg\" binary=\"/mgr/\" theme=\"/sirius/\" "
    ∷ "fixpng=\"\" localdir=\"local/\" img=\"\" css=\"main.css\" logolink=\"/mgr/\" logo=\"logo-vdsmgr.png\" >"
    ∷ "<p_num>1</p_num>" ∷ "<p_cnt>30</p_cnt>" ∷ "<p_sort>''</p_sort>" ∷ "<p_order>''</p_order>"
    ∷ "<plid>" ∷ [])

-- The list of pages, between the id and its rows
unfoldable pub urls_head : Bytes
urls_head = texts (
    "</plid>" ∷ "<func>siteurls</func>" ∷ "<slave></slave>" ∷ "<tfilter></tfilter>"
    ∷ "<metadata type=\"list\" selficon=\"equipment\" key=\"spid\">"
    ∷ "<coldata type=\"list\" key=\"spid\">"
    ∷ "<col type=\"data\" name=\"spid\" wrap=\"no\" align=\"left\" />"
    ∷ "<col type=\"data\" name=\"purl\" wrap=\"no\" align=\"left\" />"
    ∷ "<col type=\"data\" name=\"pstatus\" wrap=\"no\" align=\"left\" />"
    ∷ "<col type=\"data\" name=\"phttpstatus\" wrap=\"no\" align=\"left\" />"
    ∷ "<col type=\"data\" name=\"ploadtime\" wrap=\"no\" align=\"left\" />"
    ∷ "<col type=\"data\" name=\"plastcheck\" wrap=\"no\" align=\"left\" />"
    ∷ "<col type=\"data\" name=\"psize\" wrap=\"no\" align=\"left\" />" ∷ "</coldata>"
    ∷ "<toolbar type=\"list\" key=\"spid\">"
    ∷ "<toolbtn type=\"back\" name=\"backtosites\" img=\"t-back\" func=\"sites\" />"
    ∷ "<toolbtn type=\"func\" name=\"urladd\" img=\"t-new\" default=\"no\" func=\"tb_op_new('siteurladd')\" />"
    ∷ "<toolbtn type=\"func\" name=\"urledit\" img=\"t-edit\" default=\"yes\" func=\"tb_op_new('siteurledit')\" />"
    ∷ "<toolbtn type=\"group\" name=\"urldelete\" img=\"t-delete\" func=\"siteurldel\" />"
    ∷ "</toolbar>" ∷ "</metadata>" ∷ [])

-- The list of pages, behind its rows
unfoldable pub urls_tail : Bytes
urls_tail = texts (
    "<messages>" ∷ "<msg name=\"title\">Проверяемые URLы</msg>" ∷ "<msg name=\"spid\">ID</msg>"
    ∷ "<msg name=\"purl\">URL</msg>" ∷ "<msg name=\"pstatus\">Состояние</msg>"
    ∷ "<msg name=\"phttpstatus\">HTTP-статус</msg>"
    ∷ "<msg name=\"ploadtime\">Скорость загрузки</msg>"
    ∷ "<msg name=\"plastcheck\">Посл. проверка</msg>" ∷ "<msg name=\"psize\">Вес</msg>"
    ∷ "<msg name=\"m0\">WAS?</msg>" ∷ "<msg name=\"hint_urladd\">Добавить URL</msg>"
    ∷ "<msg name=\"hint_urledit\">Изменить URL</msg>"
    ∷ "<msg name=\"hint_urldelete\">Удалить URL</msg>"
    ∷ "<msg name=\"msg_nosel\">Ничего не выделено</msg>"
    ∷ "<msg name=\"msg_siteurldel\">Удалить URL</msg>"
    ∷ "<msg name=\"msg_disabled\">Отключено</msg>" ∷ "<msg name=\"msg_m0\">ЩИТО?</msg>"
    ∷ "</messages>" ∷ "</doc>" ∷ [])

-- The form of a new page, in front of the sites
unfoldable pub url_form : Bytes
url_form = texts (
    "<doc mtime=\"45gvergv4rg\" binary=\"/mgr/\" theme=\"/sirius/\" "
    ∷ "fixpng=\"no\" localdir=\"local/\" img=\"\" css=\"main.css\">" ∷ "<plid></plid>"
    ∷ "<func>siteadd</func>" ∷ "<slave>0</slave>" ∷ "<metadata type=\"form\" name=\"siteurladd\">"
    ∷ "<form height=\"200\" maxwidth=\"300\" focus=\"single\" top=\"yes\" extokmsg=\"m0\">"
    ∷ "<page name=\"single\">"
    ∷ "<field name=\"newurl\"><input type=\"text\" name=\"newurl\" /></field>"
    ∷ "<field name=\"sid\"><select name=\"sid\" /></field>" ∷ "</page>" ∷ "</form>" ∷ "</metadata>"
    ∷ "<messages>" ∷ "<msg name=\"title\">Добавление сайта</msg>"
    ∷ "<msg name=\"msg_extokmsg\">Создать</msg>" ∷ "<msg name=\"msg_back\">Отмена</msg>"
    ∷ "<msg name=\"m0\">WAS?</msg>" ∷ "<msg name=\"newdomain\">Домен сайта</msg>"
    ∷ "<msg name=\"newurl\">URL для проверки</msg>"
    ∷ "<msg name=\"multistart\">Начало диапазона IP-адрес</msg>"
    ∷ "<msg name=\"multiend\">Окончание диапазона IP-адрес</msg>"
    ∷ "<msg name=\"msg_m0\">ЩИТО?</msg>" ∷ "</messages>" ∷ "<pwgenlen>'8'</pwgenlen>"
    ∷ "<pwgencharacters></pwgencharacters>" ∷ "<slist name=\"sid\">" ∷ [])
