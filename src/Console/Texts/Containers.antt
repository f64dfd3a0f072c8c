-- ===== src/Console/Texts/Containers.antt =====
-- src/modules/mgr/mgr_cts.cpp: the literal texts of its pages.
use evcp.Base.{[], ◌∷◌, Bytes}
use evcp.Base.Text.{texts}

-- The form of a new container, in front of the templates
unfoldable pub create_head : Bytes
create_head = texts (
    "<doc mtime=\"45gvergv4rg\" binary=\"/mgr/\" theme=\"/sirius/\" "
    ∷ "fixpng=\"no\" localdir=\"local/\" img=\"\" css=\"main.css\" logolink=\"/mgr/\" logo=\"logo-vdsmgr.png\" >"
    ∷ "<p_num>1</p_num>" ∷ "<p_cnt>1</p_cnt>" ∷ "<p_sort>''</p_sort>" ∷ "<p_order>''</p_order>"
    ∷ "<plid></plid>" ∷ "<func>vds</func>" ∷ "<slave>0</slave>" ∷ "<tfilter></tfilter>"
    ∷ "<metadata type=\"form\" onsubmit=\"dddd\">"
    ∷ "<form height=\"200\" maxwidth=\"300\" focus=\"maindata\" top=\"yes\" extokmsg=\"dddd\">"
    ∷ "<page name=\"maindata\">"
    ∷ "<field name=\"sysid\" ><input type=\"text\" name=\"sysid\" /></field>"
    ∷ "<field name=\"ipaddr\" ><input type=\"text\" name=\"ipaddr\" /></field>"
    ∷ "<field name=\"hostname\" ><input type=\"text\" name=\"hostname\" /></field>"
    ∷ "<field name=\"pw\" ><input type=\"password\" name=\"pw\" /></field>"
    ∷ "<field name=\"procnum\" ><input type=\"text\" name=\"procnum\" /></field>"
    ∷ "<field name=\"memsize\" ><input type=\"text\" name=\"memsize\" /></field>"
    ∷ "<field name=\"ostmpl\" ><select type=\"text\" name=\"ostmpl\" /></field>"
    ∷ "<field name=\"diskspace\" ><input type=\"text\" name=\"name\" /></field>" ∷ "</page>"
    ∷ "<page name=\"notedata\">" ∷ "</page>" ∷ "<page name=\"auxdata\">"
    ∷ "<field name=\"inodes\" ><input type=\"text\" name=\"name\" /></field>" ∷ "</page>"
    ∷ "</form>" ∷ "</metadata>" ∷ [])

-- The form of a new container, behind the templates
unfoldable pub create_tail : Bytes
create_tail = texts (
    "<messages>" ∷ "<msg name=\"title\">Создаём контейнер</msg>"
    ∷ "<msg name=\"maindata\">Основные настройки</msg>" ∷ "<msg name=\"notedata\">Заметки</msg>"
    ∷ "<msg name=\"auxdata\">Подробные настройки</msg>" ∷ "<msg name=\"sysid\">Сист. номер</msg>"
    ∷ "<msg name=\"hostname\">Имя сервера</msg>" ∷ "<msg name=\"procnum\">Процессов</msg>"
    ∷ "<msg name=\"pw\">ROOT-Пароль</msg>" ∷ "<msg name=\"memsize\">ОЗУ</msg>"
    ∷ "<msg name=\"ipaddr\">IP-адрес</msg>" ∷ "<msg name=\"ostmpl\">Шаблон ОС</msg>"
    ∷ "<msg name=\"diskspace\">Размер диска</msg>" ∷ "<msg name=\"inodes\">Кол-во Inodes</msg>"
    ∷ "<msg name=\"msg_extokmsg\">Создать</msg>" ∷ "<msg name=\"msg_back\">Отмена</msg>"
    ∷ "<msg name=\"msg_id\">Внутренний служебный идентификатор сервера</msg>"
    ∷ "<msg name=\"id\">Идентификатор</msg>" ∷ "<msg name=\"msg_name\">Отмен2</msg>"
    ∷ "<msg name=\"name\">Отмен2f</msg>" ∷ "<msg name=\"hint_id\">Отмена</msg>"
    ∷ "<msg name=\"hint_name\">Отмена</msg>" ∷ "<msg name=\"hint_ip\">Отмена</msg>"
    ∷ "<msg name=\"hint_ip1\">Отмена</msg>" ∷ "</messages>" ∷ "<pwgenlen>'8'</pwgenlen>"
    ∷ "<pwgencharacters>1234567890qwertyuiopasdfghjklzxcvbnmASDFGHJKLQWERTYUIOPZXCVBNM</pwgencharacters>"
    ∷ "</doc>" ∷ [])

-- The list of containers, in front of its rows
unfoldable pub containers_head : Bytes
containers_head = texts (
    "<doc mtime=\"45gvergv4rg\" binary=\"/mgr/\" theme=\"/sirius/\" "
    ∷ "fixpng=\"\" localdir=\"local/\" img=\"\" css=\"main.css\" logolink=\"/mgr/\" logo=\"logo-vdsmgr.png\" >"
    ∷ "<p_num>1</p_num>" ∷ "<p_cnt>1</p_cnt>" ∷ "<p_sort>''</p_sort>" ∷ "<p_order>''</p_order>"
    ∷ "<plid></plid>" ∷ "<func>vds</func>" ∷ "<slave>0</slave>" ∷ "<tfilter></tfilter>"
    ∷ "<metadata type=\"list\" selficon=\"main\">" ∷ "<coldata type=\"list\" key=\"sss\">"
    ∷ "<col type=\"data\" name=\"elid\" wrap=\"no\" align=\"left\" />"
    ∷ "<col type=\"data\" name=\"host\" wrap=\"no\" align=\"left\" />"
    ∷ "<col type=\"data\" name=\"ipaddr\" wrap=\"no\" align=\"left\" />"
    ∷ "<col type=\"data\" name=\"ostempl\" wrap=\"no\" align=\"left\" />"
    ∷ "<col type=\"data\" name=\"numproc\" wrap=\"no\" align=\"left\" />"
    ∷ "<col type=\"data\" name=\"status\" wrap=\"no\" align=\"left\" />"
    ∷ "<col type=\"data\" name=\"laverage\" wrap=\"no\" align=\"left\" />"
    ∷ "<col type=\"data\" name=\"space\" wrap=\"no\" align=\"left\" />" ∷ "</coldata>"
    ∷ "<toolbar type=\"list\" key=\"sss\">"
    ∷ "<toolbtn type=\"func\" name=\"create\" img=\"t-new\" default=\"yes\" func=\"tb_op_new('vds.add')\" />"
    ∷ "<toolbtn type=\"edit\" img=\"t-edit\" default=\"no\" func=\"vds.edit\" />" ∷ "</toolbar>"
    ∷ "</metadata>" ∷ [])

-- The list of containers, behind its rows
unfoldable pub containers_tail : Bytes
containers_tail = texts (
    "<messages>" ∷ "<msg name=\"title\">Список контейнеров</msg>"
    ∷ "<msg name=\"elid\">Сист. номер</msg>" ∷ "<msg name=\"numproc\">Процессов</msg>"
    ∷ "<msg name=\"ostempl\">Шаблон ОС</msg>" ∷ "<msg name=\"laverage\">Нагрузка</msg>"
    ∷ "<msg name=\"status\">Состояние</msg>" ∷ "<msg name=\"ipaddr\">IP-адрес</msg>"
    ∷ "<msg name=\"space\">Использование диска</msg>" ∷ "<msg name=\"host\">Хост</msg>"
    ∷ "<msg name=\"hint_create\">create111</msg>" ∷ "</messages>" ∷ "</doc>" ∷ [])
